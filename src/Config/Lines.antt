-- ===== src/Config/Lines.antt =====
-- What `RpcConfig::parseLine` makes of a line: deric_rpc/config/src/rpc_config.cpp.
use deric_rpc.Prelude.{
  ℕ, zero, suc, ◌+◌, ◌≤◌, ◌<◌, ◌≡◌, ◌≢◌, refl, ap, ◌∙◌, false, Bytes, length, take, drop, replicate,
  [], ◌∷◌, ◌++◌, append_assoc, none, some, arith, get_elem?, Dict, length-append, length-replicate,
  take-append, drop-append,
}
use deric_rpc.Config.{
  space, find_byte, find_other, skip_back, emplace, parse_from, add_item, is_ignored, parse_line,
}

abbrev pub Lacks : ℕ → Bytes → Type 0
Lacks c [] = Unit {0}
Lacks c (x ∷ xs) = (x ≢ c) × Lacks c xs

pub Lacks-append : (c : ℕ) (xs ys : Bytes) → Lacks c xs → Lacks c ys → Lacks c (xs ++ ys)
Lacks-append c [] ys hx hy = hy
Lacks-append c (x ∷ xs) ys hx hy = (hx.0, Lacks-append c xs ys hx.1 hy)

pub Lacks-replicate : (c d n : ℕ) → d ≢ c → Lacks c (replicate n d)
Lacks-replicate c d zero h = tt
Lacks-replicate c d (suc n) h = (h, Lacks-replicate c d n h)

find_byte-first :
    (c : ℕ) (xs rest : Bytes) (i : ℕ)
    → Lacks c xs
    → find_byte c (xs ++ (c ∷ rest)) i ≡ some (i + length xs)
unfolding find_byte
find_byte-first c [] rest i h = ground arith
find_byte-first c (x ∷ xs) rest i h = ground (arith, find_byte-first c xs rest (i + 1) h.1)

find_byte-none : (c : ℕ) (xs : Bytes) (i : ℕ) → Lacks c xs → find_byte c xs i ≡ none
unfolding find_byte
find_byte-none c [] i h = refl
find_byte-none c (x ∷ xs) i h = ground (arith, find_byte-none c xs (i + 1) h.1)

find_other-first :
    (c n x : ℕ) (rest : Bytes) (i : ℕ)
    → x ≢ c
    → find_other c (replicate n c ++ (x ∷ rest)) i ≡ some (i + n)
unfolding find_other
find_other-first c zero x rest i h = ground arith
find_other-first c (suc n) x rest i h = ground (arith, find_other-first c n x rest (i + 1) h)

get_elem?-append : (xs ys : Bytes) (j : ℕ) → get_elem? (xs ++ ys) (length xs + j) ≡ get_elem? ys j
get_elem?-append [] ys j = ap (get_elem? ys) (omega arith)
get_elem?-append (x ∷ xs) ys j =
    let e : suc (length xs) + j ≡ suc (length xs + j) = omega arith in
    rw e (get_elem?-append xs ys j)

get_elem?-replicate :
    (n c j : ℕ) (rest : Bytes) → j < n → get_elem? (replicate n c ++ rest) j ≡ some c
get_elem?-replicate zero c j rest h = absurd (omega arith)
get_elem?-replicate (suc n) c zero rest h = refl
get_elem?-replicate (suc n) c (suc j) rest h = get_elem?-replicate n c j rest (omega arith)

skip_back_stop :
    (i z : ℕ) (buf : Bytes) → get_elem? buf i ≡ some z → z ≢ space → skip_back i buf ≡ some i
unfolding skip_back
skip_back_stop zero z buf e h = ground arith
skip_back_stop (suc i) z buf e h = ground arith

skip_back_over :
    (i : ℕ) (buf : Bytes)
    → get_elem? buf (suc i) ≡ some space
    → skip_back (suc i) buf ≡ skip_back i buf
unfolding skip_back
skip_back_over i buf e = ground arith

-- From any of the blanks behind it the loop comes down to the last byte of the key.
skip_back-key :
    (front : Bytes) (z n j : ℕ) (rest : Bytes)
    → z ≢ space
    → j ≤ n
    → skip_back (length front + j) (front ++ (z ∷ (replicate n space ++ rest)))
      ≡ some (length front)
skip_back-key front z n zero rest h le =
    let buf = front ++ (z ∷ (replicate n space ++ rest)) in
    skip_back_stop (length front + 0) z buf
      (get_elem?-append front (z ∷ (replicate n space ++ rest)) 0) h
    ∙ ap some (omega arith)
skip_back-key front z n (suc j) rest h le =
    let tail = z ∷ (replicate n space ++ rest) in
    let e : length front + suc j ≡ suc (length front + j) = omega arith in
    let blank : get_elem? (front ++ tail) (suc (length front + j)) ≡ some space =
      rw e at (get_elem?-append front tail (suc j)) ∙ get_elem?-replicate n space j rest le in
    rw e (
      skip_back_over (length front + j) (front ++ tail) blank
      ∙ skip_back-key front z n j rest h (omega arith))

-- A key that ends in the byte `z`, blanks, `=`, blanks, and a value that begins with `v`.
abbrev pub line_of : Bytes → ℕ → ℕ → ℕ → ℕ → Bytes → Bytes
line_of front z n m v vs =
    front ++ (z ∷ (replicate n space ++ (b'=' ∷ (replicate m space ++ (v ∷ vs)))))

is_ignored-line_of :
    (front : Bytes) (z : ℕ) (rest : Bytes)
    → is_ignored (front ++ (z ∷ [])) ≡ false
    → is_ignored (front ++ (z ∷ rest)) ≡ false
is_ignored-line_of [] z rest h = h
is_ignored-line_of (x ∷ xs) z rest h = h

take_front : (n : ℕ) (xs ys whole : Bytes) → whole ≡ xs ++ ys → n ≡ length xs → take n whole ≡ xs
take_front n xs ys whole e f = rw (e, f) (take-append xs ys)

drop_front : (n : ℕ) (xs ys whole : Bytes) → whole ≡ xs ++ ys → n ≡ length xs → drop n whole ≡ ys
drop_front n xs ys whole e f = rw (e, f) (drop-append xs ys)

add_item-line_of :
    (front : Bytes) (z n m v : ℕ) (vs : Bytes) (items : Dict Bytes Bytes)
    → v ≢ space
    → add_item (line_of front z n m v vs) (suc (length front + n)) (length front) items
      ≡ emplace (front ++ (z ∷ [])) (v ∷ vs) items
unfolding add_item
add_item-line_of front z n m v vs items ne =
    let buf = line_of front z n m v vs in
    let value = v ∷ vs in
    let key_blanks = front ++ (z ∷ replicate n space) in
    let size = length-append front (z ∷ replicate n space) in
    let count = length-replicate n space in
    let behind : drop (suc (length front + n) + 1) buf ≡ replicate m space ++ value =
      drop_front (suc (length front + n) + 1) (key_blanks ++ (b'=' ∷ []))
        (replicate m space ++ value) buf (simp append_assoc)
        (omega (arith, length-append key_blanks (b'=' ∷ []), size, count)) in
    let found : find_other space (drop (suc (length front + n) + 1) buf)
          (suc (length front + n) + 1)
        ≡ some (suc (length front + n) + 1 + m) =
      rw behind (find_other-first space m v vs (suc (length front + n) + 1) ne) in
    let key : take (length front + 1) buf ≡ front ++ (z ∷ []) =
      take_front (length front + 1) (front ++ (z ∷ []))
        (replicate n space ++ (b'=' ∷ (replicate m space ++ value))) buf (simp append_assoc)
        (omega (arith, length-append front (z ∷ []))) in
    let rest : drop (suc (length front + n) + 1 + m) buf ≡ value =
      drop_front (suc (length front + n) + 1 + m) (key_blanks ++ (b'=' ∷ replicate m space)) value
        buf (simp append_assoc)
        (omega (
          arith,
          length-append key_blanks (b'=' ∷ replicate m space),
          size,
          count,
          length-replicate m space,
        )) in
    ground (arith, found, key, rest)

parse_from-line_of :
    (front : Bytes) (z n m v : ℕ) (vs : Bytes) (items : Dict Bytes Bytes)
    → z ≢ space
    → v ≢ space
    → parse_from (line_of front z n m v vs) (suc (length front + n)) items
      ≡ some (emplace (front ++ (z ∷ [])) (v ∷ vs) items)
unfolding parse_from
parse_from-line_of front z n m v vs items not_blank v_ne = ground (
  arith,
  skip_back-key front z n n (b'=' ∷ (replicate m space ++ (v ∷ vs))) not_blank,
  add_item-line_of front z n m v vs items v_ne,
)

find_byte-line_of :
    (front : Bytes) (z n m v : ℕ) (vs : Bytes)
    → Lacks b'=' front
    → z ≢ b'='
    → find_byte b'=' (line_of front z n m v vs) zero ≡ some (suc (length front + n))
find_byte-line_of front z n m v vs lacks not_equal =
    let key_blanks = front ++ (z ∷ replicate n space) in
    let tail = replicate m space ++ (v ∷ vs) in
    let none_before : Lacks b'=' key_blanks =
      Lacks-append b'=' front (z ∷ replicate n space) lacks
        (not_equal, Lacks-replicate b'=' space n (λ e. omega arith)) in
    let split : line_of front z n m v vs ≡ key_blanks ++ (b'=' ∷ tail) = simp append_assoc in
    rw split (
      find_byte-first b'=' key_blanks tail zero none_before
      ∙ ap some
          (omega (arith, length-append front (z ∷ replicate n space), length-replicate n space)))

-- A line with a key, `=` and a value is read as that key and value, without the blanks around `=`;
-- the entry is made if the key has none yet. The key is not empty, has no `=`, does not begin with
-- `#` and does not end in a blank; the value is not empty and does not begin with a blank.
pub parse_line-line_of :
    (front : Bytes) (z n m v : ℕ) (vs : Bytes) (items : Dict Bytes Bytes)
    → Lacks b'=' front
    → z ≢ b'='
    → z ≢ space
    → v ≢ space
    → is_ignored (front ++ (z ∷ [])) ≡ false
    → parse_line (line_of front z n m v vs) items
      ≡ some (emplace (front ++ (z ∷ [])) (v ∷ vs) items)
unfolding parse_line
parse_line-line_of front z n m v vs items lacks not_equal not_blank v_ne key_line =
    rw
      (
        is_ignored-line_of front z (replicate n space ++ (b'=' ∷ (replicate m space ++ (v ∷ vs))))
            key_line,
        parse_line,
      )
      (rw (find_byte-line_of front z n m v vs lacks not_equal)
        (parse_from-line_of front z n m v vs items not_blank v_ne))

-- A line that is no comment and has no `=` is read outside its string.
pub parse_line_without_equals :
    (buf : Bytes) (items : Dict Bytes Bytes)
    → is_ignored buf ≡ false
    → Lacks b'=' buf
    → parse_line buf items ≡ none
unfolding parse_line
parse_line_without_equals buf items line lacks = ground (arith, find_byte-none b'=' buf zero lacks)
