-- ===== src/Server/Registry/Methods.antt =====
-- The registered functions as a map: deric_rpc/rpc/server/src/rpc_service_impl.cpp,
-- `registerMethod`, `unregisterMethod` and `handleCommand`.
use deric_rpc.Prelude.{
  failure, success, Bytes, ◌≡◌, ◌⊎◌, true, false, Option, none, some, arith, lookup, contains,
  insert, bytes_equality, bytes_beq_iff, bytes_beq, lookup-insert, lookup-erase, contains-lookup,
  if◌then◌else◌,
}
use deric_rpc.Function.{ServiceFunction}
use deric_rpc.Server.Service.{Service}
use deric_rpc.Server.Registry.{register_method, unregister_method, handle_command}

module _ {W : Type 0} where
  -- What `handleCommand` does for a name, by the function that is registered under it.
  abbrev pub answer : Option (ServiceFunction W) → ServiceFunction W
  answer none request result_string w = (failure, result_string, w)
  answer (some func) request result_string w = func request result_string w

  pub handle_command-lookup :
      (name request result_string : Bytes) (s : Service W) (w : W) (f : Option (ServiceFunction W))
      → lookup name s.functions ≡ f
      → handle_command name s request result_string w ≡ answer f request result_string w
  unfolding handle_command
  handle_command-lookup name request result_string s w none e = rw (e, handle_command)
  handle_command-lookup name request result_string s w (some func) e = rw (e, handle_command)

  -- Registration under a free name succeeds, adds the function under that name and changes no other
  -- name. Under a name in use it fails and changes nothing.
  pub register_method-lookup :
      (name other : Bytes) (func : ServiceFunction W) (s : Service W)
      → let (res, s') = register_method name func s in
        ((lookup name s.functions ≡ none)
          × (res ≡ success)
          × (lookup other s'.functions
              ≡ (if bytes_beq name other then some func else lookup other s.functions)))
        ⊎ ((contains name s.functions ≡ true) × (res ≡ failure) × (s' ≡ s))
  unfolding register_method
  register_method-lookup name other func s =
      ground (arith, contains-lookup name s.functions, lookup-insert name other func s.functions)

  -- Removal of a registered function succeeds, frees its name and changes no other name. Of a name
  -- that is not registered it fails and changes nothing.
  pub unregister_method-lookup :
      (name other : Bytes) (s : Service W)
      → let (res, s') = unregister_method name s in
        ((contains name s.functions ≡ true)
          × (res ≡ success)
          × (lookup other s'.functions
              ≡ (if bytes_beq name other then none else lookup other s.functions)))
        ⊎ ((lookup name s.functions ≡ none) × (res ≡ failure) × (s' ≡ s))
  unfolding unregister_method
  unregister_method-lookup name other s =
      ground (arith, contains-lookup name s.functions, lookup-erase name other s.functions)

  pub register_method_fresh :
      (name : Bytes) (func : ServiceFunction W) (s : Service W)
      → contains name s.functions ≡ false
      → register_method name func s
        ≡ (success, record s { functions = insert name func s.functions })
  unfolding register_method
  register_method_fresh name func s free = ground arith

  pub lookup-insert_self :
      (name : Bytes) (func : ServiceFunction W) (s : Service W)
      → lookup name (insert name func s.functions) ≡ some func
  lookup-insert_self name func s =
      ground (arith, lookup-insert name name func s.functions, bytes_beq_iff name name)
