-- ===== src/Prelude/Maps.antt =====
-- `std::map` and `std::unordered_map` as association lists, for the operations the source uses.
use mathlib.Core.Path.{◌≡◌, refl}
use mathlib.Core.Bool.{Bool, true, false}
use mathlib.Core.List.{List, [], ◌∷◌}
use mathlib.Core.Option.{Option, none, some}
use native.Mathlib.Omega.{arith}
use deric_rpc.Prelude.Tests.{if◌then◌else◌}
use deric_rpc.Prelude.Eq.{Equality, ◌==◌}

abbrev pub Dict {ℓ κ} : Type ℓ → Type κ → Type (ℓ ⊔ κ)
Dict K V = List (K × V)

module _ {ℓ κ} {K : Type ℓ} {V : Type κ} ⦃e : Equality K⦄ where
  unfoldable pub lookup : K → Dict K V → Option V
  lookup key [] = none
  lookup key ((k, v) ∷ d) = if k == key then some v else lookup key d

  -- `m.find(key) != m.end()`.
  unfoldable pub contains : K → Dict K V → Bool
  contains key [] = false
  contains key ((k, v) ∷ d) = if k == key then true else contains key d

  -- `m.erase(key)`.
  unfoldable pub erase : K → Dict K V → Dict K V
  erase key [] = []
  erase key ((k, v) ∷ d) = let rest = erase key d in if k == key then rest else (k, v) ∷ rest

  -- `m[key] = value`: the entry is replaced, or added.
  unfoldable pub insert : K → V → Dict K V → Dict K V
  insert key value [] = (key, value) ∷ []
  insert key value ((k, v) ∷ d) =
      let rest = insert key value d in if k == key then (key, value) ∷ d else (k, v) ∷ rest

  pub lookup-insert :
      (key other : K) (value : V) (d : Dict K V)
      → lookup other (insert key value d) ≡ (if key == other then some value else lookup other d)
  unfolding lookup insert
  lookup-insert key other value [] = refl
  lookup-insert key other value ((k, v) ∷ d) = ground (
    arith,
    e.reflects key other,
    e.reflects k key,
    e.reflects k other,
    lookup-insert key other value d,
  )

  pub lookup-erase :
      (key other : K) (d : Dict K V)
      → lookup other (erase key d) ≡ (if key == other then none else lookup other d)
  unfolding lookup erase
  lookup-erase key other [] = ground arith
  lookup-erase key other ((k, v) ∷ d) =
      ground (
        arith,
        e.reflects key other,
        e.reflects k key,
        e.reflects k other,
        lookup-erase key other d,
      )

  pub contains-lookup :
      (key : K) (d : Dict K V)
      → contains key d ≡ elim (lookup key d) [ none ↦ false | some _ ↦ true ]
  unfolding lookup contains
  contains-lookup key [] = refl
  contains-lookup key ((k, v) ∷ d) = ground (arith, contains-lookup key d)
