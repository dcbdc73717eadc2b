-- ===== src/Rpc/Served.antt =====
-- What a call costs on the wire: RpcServiceClientEntry::handleData of
-- deric_rpc/rpc/server/src/rpc_service_client_entry.cpp, through the service to the connection.
use deric_rpc.Prelude.{
  ℕ, ◌+◌, ◌^◌, ◌<◌, ℤ, pos, success, Bytes, length, [], ◌≡◌, ◌≢◌, ◌∷◌, refl, ◌∙◌, true, false,
  Option, some, arith, contains, to_int_small, bytes_equality,
}
use deric_rpc.Common.{started}
use deric_rpc.Os.{Kernel}
use deric_rpc.Io.Connection.Framing.{frame, send_data-frame}
use deric_rpc.Wire.Header.{tcp_header_size}
use deric_rpc.Serial.{Msgpack, Packing}
use deric_rpc.Serial.Laws.{RoundTrips}
use deric_rpc.Function.{FunctionHelper, exec_result, exec_void}
use deric_rpc.Server.Client.{ClientEntry, IoConnection}
use deric_rpc.Server.Service.{Service}
use deric_rpc.Server.Registry.{register_method, message_type_replay}
use deric_rpc.Server.Registry
use deric_rpc.Server.Handlers.{send_data, handle_data}
use deric_rpc.Client.Entry.{request}
use deric_rpc.Rpc.Messages.{reply_with, reply_with-not_empty}
use deric_rpc.Rpc.Call.{handle_data-registered, call_void}

-- An entry and its connection behind a message that was sent.
abbrev pub with_sent : Bytes → IoConnection → ClientEntry → ClientEntry
with_sent message c e = record e {
  io_connection =
      some (record c { connection = record c.connection { send_buffer = frame message } });
}

module _ {W : Type 0} (os : Kernel W) where
  pub send_data-entry :
      (message : Bytes) (fd : ℕ) (c : IoConnection) (e : ClientEntry) (w : W)
      → e.io_connection ≡ some c
      → c.connection.state ≡ started
      → c.connection.socket_fd ≡ pos fd
      → message ≢ []
      → tcp_header_size + length message < 2 ^ 31
      → send_data os message e w
        ≡ some (
          (os.send (pos fd) (frame message) w).0,
          with_sent message c e,
          (os.send (pos fd) (frame message) w).1,
        )
  unfolding send_data
  send_data-entry message fd c e w has st open_fd ne small = ground (
    arith,
    to_int_small (length message) (omega arith),
    send_data-frame os message fd c.connection w st open_fd ne small,
  )

  module _ (mp : Msgpack) where
    open mp use {Object, ints, strings}

    pub handle_data-reply :
        (s : Service W) (message : Option Bytes) (res : ℤ) (reply : Bytes) (e : ClientEntry)
        (w w₁ : W)
        → Registry.handle_data mp s message [] w ≡ (res, reply, w₁)
        → reply ≢ []
        → length reply < 2 ^ 31
        → handle_data os mp (some s) message e w ≡ send_data os reply e w₁
    unfolding handle_data
    handle_data-reply s message res [] e w w₁ answered ne small = absurd (ne refl)
    handle_data-reply s message res (b ∷ bs) e w w₁ answered ne small =
        ground (arith, answered, to_int_small (length (b ∷ bs)) small)

    -- A function without a result, registered under a free name with a started service, is run
    -- once on the client's arguments, and nothing is sent: the client's entry, its connection and
    -- what the function left of the world stay as they are. The service and the function helper
    -- have their serialer.
    pub handle_data_void :
        {A : Type 0} (p : Packing Object A) (s : Service W) (h : FunctionHelper) (func : A → W → W)
        (name : Bytes) (msg_id : ℤ) (a : A) (e : ClientEntry) (w : W)
        → RoundTrips mp ints
        → RoundTrips mp strings
        → RoundTrips mp p
        → s.state ≡ started
        → s.has_serialer ≡ true
        → h.has_serialer ≡ true
        → contains name s.functions ≡ false
        → let s' = (register_method name (exec_void mp p h func) s).1 in
          handle_data os mp (some s') (some (request mp p name msg_id a)) e w
          ≡ some (success, e, func a w)
    unfolding handle_data
    handle_data_void p s h func name msg_id a e w int_law string_law law st serial helper fresh =
        ground (
          arith,
          call_void mp p s h func name msg_id a w int_law string_law law st serial helper fresh,
        )

    -- A call of a registered function with a result, as the client's entry in a started service
    -- handles it: the function is run once on the client's arguments, and then one frame, with the
    -- reply that carries the result and the client's message id, is passed to `send` on the
    -- client's connection. The name was free at the registration, the serialers are set, the
    -- connection is started, and the reply fits an `int` with its header.
    pub handle_data_sends_reply :
        {A R : Type 0} (p : Packing Object A) (q : Packing Object R) (s : Service W)
        (h : FunctionHelper) (func : A → W → R × W) (name : Bytes) (msg_id : ℤ) (a : A) (fd : ℕ)
        (c : IoConnection) (e : ClientEntry) (w : W)
        → RoundTrips mp ints
        → RoundTrips mp strings
        → RoundTrips mp p
        → s.state ≡ started
        → s.has_serialer ≡ true
        → h.has_serialer ≡ true
        → contains name s.functions ≡ false
        → e.io_connection ≡ some c
        → c.connection.state ≡ started
        → c.connection.socket_fd ≡ pos fd
        → tcp_header_size + length (reply_with mp q name msg_id (func a w).0) < 2 ^ 31
        → let reply = reply_with mp q name msg_id (func a w).0 in
          let s' = (register_method name (exec_result mp p q h func) s).1 in
          let (res, w') = os.send (pos fd) (frame reply) (func a w).1 in
          handle_data os mp (some s') (some (request mp p name msg_id a)) e w
          ≡ some (res, with_sent reply c e, w')
    handle_data_sends_reply p q s h func name msg_id a fd c e w int_law string_law law st serial
          helper fresh has up open_fd small =
        let s' = (register_method name (exec_result mp p q h func) s).1 in
        let reply = reply_with mp q name msg_id (func a w).0 in
        let ne = reply_with-not_empty mp q name msg_id (func a w).0 int_law in
        handle_data-reply s' (some (request mp p name msg_id a)) success reply e w (func a w).1
          (handle_data-registered mp p q s h func name msg_id a w int_law string_law law st serial
            helper fresh)
          ne (omega arith)
        ∙ send_data-entry reply fd c e (func a w).1 has up open_fd ne small
