-- ===== src/Example/Console.antt =====
-- What the programs use of `std::cout` and of `int`: example/server/server.cpp and
-- example/client/client.cpp.
use deric_rpc.Prelude.{
  ℕ, zero, suc, ◌+◌, ◌-◌, ◌/◌, ◌%◌, Bytes, [], ◌∷◌, ◌++◌, ℤ, pos, negsuc, ltb, if◌then◌else◌,
  to_int, to_uint32,
}

-- A line on the standard output, with its `std::endl`.
pub record Console (W : Type 0) : Type 0 where
  pub print_line : Bytes → W → W

-- The decimal digits, on fuel for their number.
abbrev digits : ℕ → ℕ → Bytes
digits zero n = []
digits (suc f) n =
    let front = digits f (n / 10) in
    if ltb n 10 then (b'0' + n) ∷ [] else front ++ ((b'0' + n % 10) ∷ [])

-- `std::cout << n`; an `int` has ten digits at most.
unfoldable pub decimal : ℤ → Bytes
decimal (pos n) = digits 10 n
decimal (negsuc n) = b'-' ∷ digits 10 (n + 1)

-- The sum and the difference of whole numbers.
abbrev pub plus : ℤ → ℤ → ℤ
plus (pos a) (pos b) = pos (a + b)
plus (pos a) (negsuc b) = if ltb b a then pos (a - (b + 1)) else negsuc (b - a)
plus (negsuc a) (pos b) = if ltb a b then pos (b - (a + 1)) else negsuc (a - b)
plus (negsuc a) (negsuc b) = negsuc (a + b + 1)

abbrev pub negated : ℤ → ℤ
negated (pos zero) = pos zero
negated (pos (suc n)) = negsuc n
negated (negsuc n) = pos (n + 1)

-- `a + b` and `a - b` of `int`. Overflow, which C++ leaves undefined, wraps around.
unfoldable pub int_add : ℤ → ℤ → ℤ
int_add a b = to_int (to_uint32 (plus a b))

unfoldable pub int_sub : ℤ → ℤ → ℤ
int_sub a b = to_int (to_uint32 (plus a (negated b)))
