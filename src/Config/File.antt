-- ===== src/Config/File.antt =====
-- A whole configuration file: deric_rpc/config/src/rpc_config.cpp, `init` and `getValue`.
use deric_rpc.Prelude.{
  ℕ, ◌≡◌, ◌≢◌, refl, ◌∙◌, false, Bytes, replicate, List, [], ◌∷◌, ◌++◌, Option, none, some, arith,
  bytes_beq, bytes_beq_iff, if◌then◌else◌, ℤ, failure, success, Dict, lookup, bytes_equality,
  lookup-insert, contains-lookup,
}
use deric_rpc.Config.{space, emplace, is_ignored, lines, parse_lines, init, get_value}
use deric_rpc.Config.Lines.{Lacks, Lacks-append, Lacks-replicate, line_of, parse_line-line_of}

-- A line with an entry: the key is `front` and the byte `last`, the value `first` and `rest`.
pub record Entry : Type 0 where
  pub front : Bytes
  pub last : ℕ
  pub blanks_before : ℕ
  pub blanks_behind : ℕ
  pub first : ℕ
  pub rest : Bytes

abbrev pub key_of : Entry → Bytes
key_of e = e.front ++ (e.last ∷ [])

abbrev pub value_of : Entry → Bytes
value_of e = e.first ∷ e.rest

pub record IsPlain (e : Entry) : Type 0 where
  pub no_equals : Lacks b'=' (key_of e)
  pub no_comment : is_ignored (key_of e) ≡ false
  pub key_end : e.last ≢ space
  pub value_begin : e.first ≢ space
  pub key_on_line : Lacks b'\n' (key_of e)
  pub value_on_line : Lacks b'\n' (value_of e)

abbrev pub AllPlain : List Entry → Type 0
AllPlain [] = Unit {0}
AllPlain (e ∷ es) = IsPlain e × AllPlain es

-- The text of the lines, each with its newline.
abbrev pub render : List Entry → Bytes
render [] = []
render (e ∷ es) =
    line_of e.front e.last e.blanks_before e.blanks_behind e.first e.rest ++ (b'\n' ∷ render es)

-- What the first entry of a key says.
abbrev pub first_value : Bytes → Bytes → List Entry → ℤ × Bytes
first_value key val [] = (failure, val)
first_value key val (e ∷ es) =
    if bytes_beq (key_of e) key then (success, value_of e) else first_value key val es

lines-line : (l rest : Bytes) → Lacks b'\n' l → lines (l ++ (b'\n' ∷ rest)) ≡ l ∷ lines rest
unfolding lines
lines-line [] rest h = refl
lines-line (c ∷ cs) rest h = ground (arith, lines-line cs rest h.1)

Lacks-last : (c : ℕ) (xs : Bytes) (z : ℕ) → Lacks c (xs ++ (z ∷ [])) → Lacks c xs × (z ≢ c)
Lacks-last c [] z h = (tt, h.0)
Lacks-last c (x ∷ xs) z h = let (a, b) = Lacks-last c xs z h.1 in ((h.0, a), b)

line_of-on_line :
    (e : Entry)
    → IsPlain e
    → Lacks b'\n' (line_of e.front e.last e.blanks_before e.blanks_behind e.first e.rest)
line_of-on_line e p =
    let (front, last) = Lacks-last b'\n' e.front e.last p.key_on_line in
    let blanks = λ (n : ℕ). Lacks-replicate b'\n' space n (λ q. omega arith) in
    Lacks-append b'\n' e.front _ front (
      last,
      Lacks-append b'\n' (replicate e.blanks_before space) _ (blanks e.blanks_before) (
        (λ q. omega arith),
        Lacks-append b'\n' (replicate e.blanks_behind space) _ (blanks e.blanks_behind)
            p.value_on_line,
      ),
    )

abbrev store : List Entry → Dict Bytes Bytes → Dict Bytes Bytes
store [] items = items
store (e ∷ es) items = store es (emplace (key_of e) (value_of e) items)

parse_lines-render :
    (es : List Entry) (items : Dict Bytes Bytes)
    → AllPlain es
    → parse_lines (lines (render es)) items ≡ some (store es items)
unfolding parse_lines
parse_lines-render [] items h = unfold lines in refl
parse_lines-render (e ∷ es) items (p, ps) =
    let (front, last) = Lacks-last b'=' e.front e.last p.no_equals in
    rw
      (lines-line (line_of e.front e.last e.blanks_before e.blanks_behind e.first e.rest)
        (render es) (line_of-on_line e p))
      (rw
        (parse_line-line_of e.front e.last e.blanks_before e.blanks_behind e.first e.rest items
          front last p.key_end p.value_begin p.no_comment)
        (parse_lines-render es (emplace (key_of e) (value_of e) items) ps))

abbrev found_or : Option Bytes → ℤ × Bytes → ℤ × Bytes
found_or none otherwise = otherwise
found_or (some v) otherwise = (success, v)

get_value-store :
    (es : List Entry) (items : Dict Bytes Bytes) (key val : Bytes)
    → get_value key val (store es items) ≡ found_or (lookup key items) (first_value key val es)
unfolding get_value emplace
get_value-store [] items key val = ground arith
get_value-store (e ∷ es) items key val = ground (
  arith,
  get_value-store es (emplace (key_of e) (value_of e) items) key val,
  contains-lookup (key_of e) items,
  lookup-insert (key_of e) key (value_of e) items,
  bytes_beq_iff (key_of e) key,
)

-- A file of plain entries is read without an error, and `getValue` then gives the value of the
-- first entry of a key, without the blanks around `=`. Of a key with no entry it reports a failure,
-- and `val` stays as it was.
pub get_value-init :
    (es : List Entry) (key val : Bytes)
    → AllPlain es
    → (items : Dict Bytes Bytes) × (init (some (render es)) [] ≡ some (success, items))
      × (get_value key val items ≡ first_value key val es)
unfolding init
get_value-init es key val h = (
  store es [],
  rw (parse_lines-render es [] h),
  get_value-store es [] key val ∙ unfold lookup in refl,
)
