-- ===== src/Server/Registry.antt =====
-- RpcServiceImpl: deric_rpc/rpc/server/src/rpc_service_impl.cpp, its functions and the requests for
-- them. A request is the bytes from `pData` on, `len` of them.
pub mod Methods
pub mod Table
use deric_rpc.Prelude.{
  ℕ, Bool, not, Bytes, Option, none, some, ℤ, pos, failure, success, int_beq, if◌then◌else◌, insert,
  erase, contains, lookup, bytes_equality,
}
use deric_rpc.Common.{is_started}
use deric_rpc.Function.{ServiceFunction}
use deric_rpc.Serial.{
  Msgpack, get_message_type, get_message_id, get_message_name, serial_message_meta,
}
use deric_rpc.Server.Service.{Service}

-- MessageType_e of deric_rpc/common/message_public.h.
abbrev pub message_type_command : ℤ
message_type_command = pos 0

abbrev pub message_type_replay : ℤ
message_type_replay = pos 1

abbrev pub message_type_notify : ℤ
message_type_notify = pos 2

abbrev pub message_type_register : ℤ
message_type_register = pos 3

module _ {W : Type 0} where
  unfoldable pub register_method : Bytes → ServiceFunction W → Service W → ℤ × Service W
  register_method func_name func s =
      if contains func_name s.functions
      then (failure, s)
      else (success, record s { functions = insert func_name func s.functions })

  unfoldable pub unregister_method : Bytes → Service W → ℤ × Service W
  unregister_method func_name s =
      if not (contains func_name s.functions)
      then (failure, s)
      else (success, record s { functions = erase func_name s.functions })

  unfoldable pub handle_command : Bytes → Service W → ServiceFunction W
  handle_command func_name s request result_string w = elim (lookup func_name s.functions) [
    | none ↦ (failure, result_string, w)
    | some func ↦ func request result_string w
  ]

  -- Not implemented by the source.
  unfoldable pub handle_register : Bytes → ServiceFunction W
  handle_register event_name request result_string w = (success, result_string, w)

  module _ (mp : Msgpack) where
    -- The `switch` on the message type.
    dispatch : ℤ → Service W → ServiceFunction W
    dispatch msg_type s request result_string w =
        let msg_id = get_message_id mp request in
        let msg_name = get_message_name mp request in
        if int_beq msg_type message_type_command
        then (let begun =
              (serial_message_meta mp message_type_replay msg_name msg_id result_string).1 in
            handle_command msg_name s request begun w)
        else if int_beq msg_type message_type_register
        then handle_register msg_name request result_string w
        else (failure, result_string, w)

    unfoldable pub handle_data : Service W → Option Bytes → Bytes → W → ℤ × Bytes × W
    unfolding dispatch
    handle_data s none result_string w = (failure, result_string, w)
    handle_data s (some request) result_string w =
        if not (is_started s.state)
        then (failure, result_string, w)
        else if not s.has_serialer
        then (failure, result_string, w)
        else dispatch (get_message_type mp request) s request result_string w
