-- ===== src/Prelude/Eq.antt =====
-- Decidable equality of map keys, as an instance argument.
use Prim.Native.Nat.{ℕ}
use mathlib.Core.Path.{◌≡◌}
use mathlib.Core.Logic.{◌↔◌}
use mathlib.Core.Bool.{Bool, true}
use deric_rpc.Prelude.Tests.{nat_beq, nat_beq_iff}
use deric_rpc.Prelude.Int.{ℤ, int_beq, int_beq_iff}
use deric_rpc.Prelude.Lists.{Bytes, bytes_beq, bytes_beq_iff}

pub record Equality {ℓ} (A : Type ℓ) : Type ℓ where
  pub is_equal : A → A → Bool
  pub reflects : (x y : A) → (is_equal x y ≡ true) ↔ (x ≡ y)

infix 50 ◌==◌
abbrev pub ◌==◌ {ℓ} : {A : Type ℓ} ⦃e : Equality A⦄ → A → A → Bool
◌==◌ ⦃e⦄ = e.is_equal

instance abbrev pub nat_equality : Equality ℕ
nat_equality = record { is_equal = nat_beq; reflects = nat_beq_iff }

instance abbrev pub int_equality : Equality ℤ
int_equality = record { is_equal = int_beq; reflects = int_beq_iff }

instance abbrev pub bytes_equality : Equality Bytes
bytes_equality = record { is_equal = bytes_beq; reflects = bytes_beq_iff }
