-- ===== src/Rpc/Setup.antt =====
-- A service from RpcServiceEntry's first call to the first request: registerMethod, init and start of
-- deric_rpc/rpc/server/src/rpc_service_entry.cpp and its header, then RpcServiceImpl::handleData.
use deric_rpc.Prelude.{
  ℕ, ℤ, ◌≡◌, refl, ◌∙◌, true, false, Bytes, [], Option, some, arith, success, contains,
  bytes_equality,
}
use deric_rpc.Common.{created}
use deric_rpc.Os.{Kernel}
use deric_rpc.Io.Events.{IoModule}
use deric_rpc.Serial.{Msgpack, Packing}
use deric_rpc.Function.{FunctionHelper, exec_result}
use deric_rpc.Client.Entry.{request}
use deric_rpc.Server.Service.{Service}
use deric_rpc.Server.Registry.{handle_data}
use deric_rpc.Server.Registry.Methods.{handle_command-lookup}
use deric_rpc.Server.Entry.{
  WithHelper, ServiceEntry, GetValue, init, start, register_method, locked,
}
use deric_rpc.Server.Entry.Registered.{register_method-Has, init-Has, start-Has, locked-helper}
use deric_rpc.Rpc.Messages.{replied, reply_with}
use deric_rpc.Rpc.Call.{handle_data-request, exec_result-request}
use deric_rpc.Rpc.Remote.{Packs}

-- A function of the world, where the helper lives beside the world.
abbrev pub over : {W A R : Type 0} → (A → W → R × W) → A → WithHelper W → R × WithHelper W
over func a w = let (r, v) = func a w.world in (r, record w { world = v })

module _ (mp : Msgpack) {W A R : Type 0} (os : Kernel W) (p : Packing mp.Object A)
    (q : Packing mp.Object R) (func : A → W → R × W) (name : Bytes) where
  abbrev pub exec_over : FunctionHelper → Bytes → Bytes → WithHelper W → ℤ × Bytes × WithHelper W
  exec_over h = exec_result mp p q h (over func)

  -- A function may be registered before the service is initialized, when its helper has no serialer
  -- yet: the registration succeeds, and once `init` and `start` have succeeded, a request for
  -- the name is answered with what the function gives on the request's arguments, and the world
  -- is the one that the function leaves. The name was free, and msgpack round-trips the types.
  pub call_registered_early :
      (stoi : Bytes → Option ℤ) (uninitialized : ℤ) (get_value : GetValue) (self entry : ℕ)
      (s : Service (WithHelper W)) (h : FunctionHelper) (e e₁ e₂ e₃ : ServiceEntry W)
      (m m₁ : IoModule) (w w₁ w₂ : WithHelper W) (res msg_id : ℤ) (a : A)
      → Packs mp p q
      → e.service_impl ≡ some s
      → s.state ≡ created
      → contains name s.functions ≡ false
      → w.func_helper ≡ some h
      → register_method exec_over name e w ≡ (res, e₁)
      → init stoi uninitialized get_value self e₁ w ≡ some (some success, e₂, w₁)
      → start os entry e₂ m w₁ ≡ some (success, e₃, m₁, w₂)
      → (res ≡ success)
        × (s' : Service (WithHelper W)) × (e₃.service_impl ≡ some s')
        × (handle_data mp s' (some (request mp p name msg_id a)) [] w₂ ≡ (
          success,
          reply_with mp q name msg_id (func a w₂.world).0,
          record w₂ { world = (func a w₂.world).1 },
        ))
  call_registered_early stoi uninitialized get_value self entry s h e e₁ e₂ e₃ m m₁ w w₁ w₂ res
        msg_id a law owned state free helper stored set_up began =
      let f = locked exec_over in
      let (added, has) =
        register_method-Has name exec_over created e e₁ s h w res owned state free helper stored in
      let (has₁, packs₁) =
        init-Has name exec_over f stoi uninitialized get_value self e₁ e₂ w w₁ has set_up in
      let (has₂, packs₂) = start-Has name exec_over f os entry e₂ e₃ m m₁ w₁ w₂ has₁ packs₁ began in
      let req = request mp p name msg_id a in
      let s' = has₂.service in
      let ready : FunctionHelper = record { has_serialer = true } in
      (
        added,
        s',
        has₂.owned,
        handle_data-request mp p s' name msg_id a w₂ law.ints law.strings has₂.state
              (ground (arith, packs₂.serialer, packs₂.owned, has₂.owned))
            ∙ handle_command-lookup name req (replied mp name msg_id) s' w₂ (some f) has₂.found
            ∙ locked-helper exec_over ready req (replied mp name msg_id) w₂ packs₂.helper
            ∙ exec_result-request mp p q ready (over func) name msg_id a w₂ law.ints law.strings
                law.arguments refl,
      )
