-- ===== src/Rpc/Sent.antt =====
-- What RpcClientEntry::invoke puts on the wire: deric_rpc/rpc/client/include/rpc_client_entry.h,
-- through RpcClientImpl::sendMsg to the connection.
use deric_rpc.Prelude.{
  ℕ, ◌+◌, ◌^◌, ◌<◌, pos, Bytes, length, ◌≡◌, ◌≢◌, true, some, arith, to_int_small, [],
}
use deric_rpc.Common.{started}
use deric_rpc.Os.{Kernel}
use deric_rpc.Io.Connection.Framing.{frame, send_data-frame}
use deric_rpc.Wire.Header.{tcp_header_size}
use deric_rpc.Serial.{Msgpack, Packing}
use deric_rpc.Serial.Laws.{RoundTrips}
use deric_rpc.Server.Client.{IoConnection}
use deric_rpc.Client.Impl.{ClientImpl, send_msg}
use deric_rpc.Client.Entry.{ClientEntry, request, invoke, invoke_impl, get_message_id_of}
use deric_rpc.Rpc.Messages.{request-not_empty}

-- A client and its connection behind a message that was sent.
abbrev pub impl_with_sent : Bytes → IoConnection → ClientImpl → ClientImpl
impl_with_sent message io impl = record impl {
  io_connection =
      some (record io { connection = record io.connection { send_buffer = frame message } });
}

module _ {W : Type 0} (os : Kernel W) where
  send_msg-frame :
      (message : Bytes) (fd : ℕ) (io : IoConnection) (impl : ClientImpl) (w : W)
      → impl.io_connection ≡ some io
      → io.connection.state ≡ started
      → io.connection.socket_fd ≡ pos fd
      → message ≢ []
      → tcp_header_size + length message < 2 ^ 31
      → send_msg os message impl w
        ≡ some (
          (os.send (pos fd) (frame message) w).0,
          impl_with_sent message io impl,
          (os.send (pos fd) (frame message) w).1,
        )
  unfolding send_msg
  send_msg-frame message fd io impl w has st open_fd ne small = ground (
    arith,
    to_int_small (length message) (omega arith),
    send_data-frame os message fd io.connection w st open_fd ne small,
  )

  module _ (mp : Msgpack) where
    open mp use {Object, ints}

    -- `invoke` of a client that is connected passes one frame to `send`, which holds the request
    -- under the next message id: the counter of ids goes up by one, and its new value is the id.
    -- The counter has not come to the largest `int`, and the request fits an `int` with its header.
    pub invoke_sends_request :
        {A : Type 0} (p : Packing Object A) (func : Bytes) (args : A) (index fd : ℕ)
        (io : IoConnection) (impl : ClientImpl) (c : ClientEntry) (w : W)
        → RoundTrips mp ints
        → index + 1 < 2 ^ 31
        → c.has_serialer ≡ true
        → c.client_impl ≡ some impl
        → impl.io_connection ≡ some io
        → io.connection.state ≡ started
        → io.connection.socket_fd ≡ pos fd
        → tcp_header_size + length (request mp p func (pos (index + 1)) args) < 2 ^ 31
        → let message = request mp p func (pos (index + 1)) args in
          let (res, w') = os.send (pos fd) (frame message) w in
          invoke mp os p func args index c w
          ≡ some
              (res, record c { client_impl = some (impl_with_sent message io impl) }, w', index + 1)
    unfolding invoke invoke_impl get_message_id_of
    invoke_sends_request p func args index fd io impl c w law bound ser has_impl has st open_fd
          small =
        let message = request mp p func (pos (index + 1)) args in
        let ne = request-not_empty mp p func (pos (index + 1)) args law in
        ground (arith, ser, has_impl, send_msg-frame message fd io impl w has st open_fd ne small)
