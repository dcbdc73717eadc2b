-- ===== src/Client/Entry.antt =====
-- RpcClientEntry: deric_rpc/rpc/client/src/rpc_client_entry.cpp and its header.
pub mod Waiting
pub mod Sync
pub mod Connect
use deric_rpc.Prelude.{
  ℕ, suc, ◌+◌, Bool, true, false, not, ◌&&◌, ◌||◌, Bytes, [], Option, none, some, ◌>>=◌, ℤ, pos,
  failure, success, is_neg, int_beq, if◌then◌else◌, Dict, insert, erase, contains, int_equality,
}
use deric_rpc.Os.{Kernel}
use deric_rpc.Serial.{
  Msgpack, Packing, get_message_type, get_message_id, serial_message_meta, serial_message_data,
}
use deric_rpc.Server.Registry.{message_type_command, message_type_replay}
use deric_rpc.Client.Impl.{
  ClientImpl, send_msg, disconnect, new_client_impl, register_message_callback,
}
use deric_rpc.Client.Impl

-- `waiting_items` holds the message of each waiting item; who waits on its condition variable is
-- the matter of Waiting.
pub record ClientEntry : Type 0 where
  pub has_serialer : Bool
  pub client_impl : Option ClientImpl
  pub service_book : Bytes
  pub waiting_items : Dict ℤ Bytes

unfoldable pub new_client_entry : ClientEntry
new_client_entry = record {
  has_serialer = false;
  client_impl = none;
  service_book = [];
  waiting_items = [];
}

-- `service_book` is what the configuration gives for "ServiceBook".
unfoldable pub init : Option Bytes → ClientEntry → ℤ × ClientEntry
init none c = (failure, c)
init (some service_book) c =
    let (res, impl) = register_message_callback new_client_impl in
    let c₁ = record c { service_book = service_book } in
    if is_neg res
    then (failure, record c₁ { client_impl = none })
    else (success, record c₁ { client_impl = some impl; has_serialer = true })

unfoldable pub deinit : ClientEntry → ℤ × ClientEntry
deinit c = (
  success,
  record c { has_serialer = false; client_impl = none; service_book = []; waiting_items = [] },
)

unfoldable pub add_result_waiting_item : ℤ → Dict ℤ Bytes → ℤ × Dict ℤ Bytes
add_result_waiting_item msg_id items =
    if contains msg_id items then (failure, items) else (success, insert msg_id [] items)

unfoldable pub remove_result_waiting_item : ℤ → Dict ℤ Bytes → ℤ × Dict ℤ Bytes
remove_result_waiting_item msg_id items =
    if not (contains msg_id items) then (failure, items) else (success, erase msg_id items)

-- A static counter of the process; the result is its new value, which is the id. It must not pass
-- the largest `int`.
unfoldable pub get_message_id_of : ℕ → ℤ × ℕ
get_message_id_of index = (pos (index + 1), index + 1)

module _ (mp : Msgpack) where
  -- The items behind the call, and the id whose condition variable was notified.
  unfoldable pub store_reply : Bytes → Dict ℤ Bytes → Dict ℤ Bytes × Option ℤ
  store_reply msg items =
      let msg_id = get_message_id mp msg in
      if not (int_beq (get_message_type mp msg) message_type_replay)
      then (items, none)
      else if not (contains msg_id items)
      then (items, none)
      else (insert msg_id msg items, some msg_id)

  unfoldable pub service_message_callback : Bytes → ClientEntry → ClientEntry × Option ℤ
  unfolding store_reply
  service_message_callback msg c =
      if not c.has_serialer
      then (c, none)
      else (let (items, notified) = store_reply msg c.waiting_items in
          (record c { waiting_items = items }, notified))

  -- The string that `invoke` and `invokeWithResultSync` send for a call.
  unfoldable pub request : {A : Type 0} → Packing mp.Object A → Bytes → ℤ → A → Bytes
  request p func msg_id args =
      (serial_message_data mp p args
        (serial_message_meta mp message_type_command func msg_id []).1).1

  module _ {W : Type 0} (os : Kernel W) where
    -- `_invoke`.
    unfoldable pub invoke_impl : Bytes → ClientEntry → W → Option (ℤ × ClientEntry × W)
    invoke_impl invoke_str c w = elim c.client_impl [
      | none ↦ some (failure, c, w)
      | some impl ↦ do
        (res, impl', w') ← send_msg os invoke_str impl w
        some (res, record c { client_impl = some impl' }, w')
    ]

    abbrev is_ready : ClientEntry → Bool
    is_ready c = c.has_serialer && elim c.client_impl [ none ↦ false | some _ ↦ true ]

    -- `invoke`, and the part of `invokeWithResultSync` up to the waiting. The new counter is the
    -- last part of the result.
    unfoldable pub invoke :
        {A : Type 0}
        → Packing mp.Object A
        → Bytes
        → A
        → ℕ
        → ClientEntry
        → W
        → Option (ℤ × ClientEntry × W × ℕ)
    unfolding request invoke_impl
    invoke p func args index c w =
        let (msg_id, index') = get_message_id_of index in
        if not (is_ready c) then some (failure, c, w, index) else (do
          (res, c', w') ← invoke_impl (request p func msg_id args) c w
          some (res, c', w', index'))

  unfoldable pub disconnect_entry : {W : Type 0} → Kernel W → ClientEntry → W → ℤ × ClientEntry × W
  disconnect_entry os c w = elim c.client_impl [
    | none ↦ (failure, c, w)
    | some impl ↦
        let (res, impl', w') = Impl.disconnect os impl w in
        (res, record c { client_impl = some impl' }, w')
  ]
