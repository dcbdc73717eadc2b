-- ===== src/Wire/Uint32.antt =====
-- deric_rpc/common/message_public.h: a uint32_t as four bytes, most significant first. A byte
-- pointer is the list of the bytes from there on; `none` is a read beyond them.
use deric_rpc.Prelude.{
  ℕ, ◌+◌, ◌*◌, ◌/◌, ◌%◌, ◌^◌, ◌<◌, bit_or, bit_or-shifted, ◌≡◌, ap, ap₂, ◌∙◌, [], ◌∷◌, ◌++◌, Option,
  none, some, arith, Bytes,
}

-- `static_cast<uint32_t>(x << k)`.
abbrev shift_left : ℕ → ℕ → ℕ
shift_left x k = x * 2 ^ k % 2 ^ 32

-- `static_cast<uint8_t>(x >> k)`.
abbrev byte_at : ℕ → ℕ → ℕ
byte_at k x = x / 2 ^ k % 256

join : ℕ → ℕ → ℕ → ℕ → ℕ
join a b c d = bit_or (bit_or (bit_or (shift_left a 24) (shift_left b 16)) (shift_left c 8)) d

unfoldable pub get_uint32_from_chars : Bytes → Option ℕ
unfolding join
get_uint32_from_chars (a ∷ b ∷ c ∷ d ∷ rest) = some (join a b c d)
get_uint32_from_chars _ = none

unfoldable pub set_uint32_to_chars : ℕ → Bytes
set_uint32_to_chars num = byte_at 24 num ∷ byte_at 16 num ∷ byte_at 8 num ∷ byte_at 0 num ∷ []

bit_or-add : (k q x y : ℕ) → x ≡ q * 2 ^ k → y < 2 ^ k → bit_or x y ≡ x + y
bit_or-add k q x y e h = rw e (bit_or-shifted k q y h)

-- The three disjunctions add up, since the four bytes do not overlap.
join_sum :
    (a b c d : ℕ)
    → a < 256
    → b < 256
    → c < 256
    → d < 256
    → join a b c d ≡ a * 2 ^ 24 + b * 2 ^ 16 + c * 2 ^ 8 + d
unfolding join
join_sum a b c d ha hb hc hd =
    let top = bit_or-add 24 a (shift_left a 24) (shift_left b 16) (omega arith) (omega arith) in
    let high = shift_left a 24 + shift_left b 16 in
    let mid = bit_or-add 16 (a * 256 + b) high (shift_left c 8) (omega arith) (omega arith) in
    let upper = high + shift_left c 8 in
    let all = bit_or-add 8 (a * 65536 + b * 256 + c) upper d (omega arith) (omega arith) in
    ap (λ x. bit_or (bit_or x (shift_left c 8)) d) top
    ∙ ap (λ x. bit_or x d) mid
    ∙ all
    ∙ omega arith

-- Reading back a number below 2 ^ 32 that was written gives the number, whatever bytes follow it.
pub get_uint32-set_uint32 :
    (num : ℕ) (rest : Bytes)
    → num < 2 ^ 32
    → get_uint32_from_chars (set_uint32_to_chars num ++ rest) ≡ some num
unfolding get_uint32_from_chars set_uint32_to_chars
get_uint32-set_uint32 num rest h = ap some (
    join_sum (byte_at 24 num) (byte_at 16 num) (byte_at 8 num) (byte_at 0 num) (omega arith)
      (omega arith) (omega arith) (omega arith)
    ∙ omega arith)

-- Four bytes that were read as a number are the bytes which that number is written as.
pub set_uint32-get_uint32 :
    (a b c d : ℕ) (rest : Bytes) {num : ℕ}
    → a < 256
    → b < 256
    → c < 256
    → d < 256
    → get_uint32_from_chars (a ∷ b ∷ c ∷ d ∷ rest) ≡ some num
    → set_uint32_to_chars num ≡ a ∷ b ∷ c ∷ d ∷ []
unfolding get_uint32_from_chars set_uint32_to_chars
set_uint32-get_uint32 a b c d rest {num} ha hb hc hd e =
    let sum : num ≡ a * 2 ^ 24 + b * 2 ^ 16 + c * 2 ^ 8 + d =
      ground (arith, join_sum a b c d ha hb hc hd) in
    rw sum (
      ap₂ (λ x y. x ∷ y) (omega arith)
        (ap₂ (λ x y. x ∷ y) (omega arith)
          (ap₂ (λ x y. x ∷ y) (omega arith) (ap (λ x. x ∷ []) (omega arith)))))
