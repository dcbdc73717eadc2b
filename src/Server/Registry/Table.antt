-- ===== src/Server/Registry/Table.antt =====
-- Sequences of `registerMethod` and `unregisterMethod` of
-- deric_rpc/rpc/server/src/rpc_service_impl.cpp against a partial function of names.
use deric_rpc.Prelude.{
  ℤ, failure, success, Bytes, List, [], ◌∷◌, ◌≡◌, refl, ap, ap₂, ◌∙◌, Option, none, some, arith,
  lookup, bytes_equality, bytes_beq, if◌then◌else◌, contains-lookup, lookup-insert, lookup-erase,
}
use deric_rpc.Function.{ServiceFunction}
use deric_rpc.Server.Service.{Service}
use deric_rpc.Server.Registry.{register_method, unregister_method, handle_command}
use deric_rpc.Server.Registry.Methods.{answer, handle_command-lookup}

pub data Change (W : Type 0) : Type 0 where
  registers : Bytes → ServiceFunction W → Change W
  unregisters : Bytes → Change W

-- What is registered, as a function of the name.
abbrev pub Table : Type 0 → Type 0
Table W = Bytes → Option (ServiceFunction W)

module _ {W : Type 0} where
  unfoldable pub apply : Change W → Service W → ℤ × Service W
  apply (registers name func) s = register_method name func s
  apply (unregisters name) s = unregister_method name s

  -- The results of the calls, and the service behind them.
  unfoldable pub run : List (Change W) → Service W → List ℤ × Service W
  run [] s = ([], s)
  run (c ∷ cs) s = let (res, s₁) = apply c s in let (results, s₂) = run cs s₁ in (res ∷ results, s₂)

  abbrev put : Bytes → Option (ServiceFunction W) → Table W → Table W
  put name func f other = if bytes_beq name other then func else f other

  -- A change succeeds where it changes something: a name is taken only if it is free, and freed only
  -- if it is taken.
  unfoldable pub change : Change W → Table W → ℤ × Table W
  change (registers name func) f = elim (f name) [
    | none ↦ (success, put name (some func) f)
    | some _ ↦ (failure, f)
  ]
  change (unregisters name) f = elim (f name) [
    | none ↦ (failure, f)
    | some _ ↦ (success, put name none f)
  ]

  unfoldable pub replay : List (Change W) → Table W → List ℤ × Table W
  replay [] f = ([], f)
  replay (c ∷ cs) f =
      let (res, f₁) = change c f in let (results, f₂) = replay cs f₁ in (res ∷ results, f₂)

  abbrev pub table_of : Service W → Table W
  table_of s name = lookup name s.functions

  apply-change :
      (c : Change W) (s : Service W)
      → ((apply c s).0 ≡ (change c (table_of s)).0)
        × ((other : Bytes) → table_of (apply c s).1 other ≡ (change c (table_of s)).1 other)
  unfolding apply register_method unregister_method change
  apply-change (registers name func) s =
      let there = contains-lookup name s.functions in
      (
        ground (arith, there),
        λ other. ground (arith, there, lookup-insert name other func s.functions),
      )
  apply-change (unregisters name) s =
      let there = contains-lookup name s.functions in
      (ground (arith, there), λ other. ground (arith, there, lookup-erase name other s.functions))

  -- After any sequence of changes each call has had the result that it has on the function of
  -- names, the table is what the function has become, and `handleCommand` answers from it.
  pub run-replay :
      (cs : List (Change W)) (s : Service W) (name request result_string : Bytes) (w : W)
      → let (results, s') = run cs s in
        let (expected, f) = replay cs (table_of s) in
        (results ≡ expected)
        × (table_of s' ≡ f)
        × (handle_command name s' request result_string w ≡ answer (f name) request result_string w)
  unfolding run replay
  run-replay [] s name request result_string w = (
    refl,
    refl,
    handle_command-lookup name request result_string s w (lookup name s.functions) refl,
  )
  run-replay (c ∷ cs) s name request result_string w =
      let (res, tables) = apply-change c s in
      let table : table_of (apply c s).1 ≡ (change c (table_of s)).1 = λ i other. tables other i in
      let (results, table', answers) = run-replay cs (apply c s).1 name request result_string w in
      (
        ap (λ rs. (apply c s).0 ∷ rs) results
            ∙ ap₂ (λ r (f : Table W). r ∷ (replay cs f).0) res table,
        table' ∙ ap (λ f. (replay cs f).1) table,
        answers ∙ ap (λ f. answer ((replay cs f).1 name) request result_string w) table,
      )
