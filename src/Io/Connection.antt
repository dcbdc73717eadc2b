-- ===== src/Io/Connection.antt =====
-- TcpIoConnection: deric_rpc/io/src/tcp_io_connection.cpp and its header. A call that reads or
-- writes outside a buffer, or overflows an `int`, gives `none`.
pub mod Framing
pub mod Safety
pub mod Preserves
pub mod Lifecycle
use deric_rpc.Prelude.{
  ℕ, zero, suc, ◌+◌, ◌-◌, ◌^◌, Bool, not, ◌||◌, [], ◌∷◌, ◌++◌, Option, none, some, Bytes, length,
  take, drop, replicate, ℤ, pos, negsuc, failure, success, is_neg, to_int, ltb, if◌then◌else◌,
  ◌>>=◌,
}
use deric_rpc.Common.{
  ComponentState, created, started, is_created, is_started, IoMemberError, epoll_failed,
  IoMemberErrorAction, keep, IoConnectionEvent, close_event,
}
use deric_rpc.Os.{Recv, failed, received, Kernel}
use deric_rpc.Wire.Header.{tcp_header_size, deserialer_from, serialer_to}

pub data IoMode : Type 0 where
  server_mode client_mode : IoMode

-- `m_ioClient` is a weak pointer: the number of an object that may have ended.
pub record Connection : Type 0 where
  pub state : ComponentState
  pub send_buffer : Bytes
  pub receive_buffer : Bytes
  pub socket_fd : ℤ
  pub io_mode : IoMode
  pub io_client : Option ℕ

-- IoConnectionClientInterface. A handler may call methods of the connection that called it, so it
-- takes that connection and gives it back. `none` is a handler that does not return or leaves its
-- buffers.
pub record IoClients (W : Type 0) : Type 0 where
  pub alive : ℕ → W → Bool
  pub handle_event : ℕ → IoConnectionEvent → Connection → W → Option (ℤ × Connection × W)
  pub handle_data : ℕ → Option Bytes → ℤ → Connection → W → Option (ℤ × Connection × W)

-- `std::vector<char>::resize`.
abbrev pub resize : ℕ → Bytes → Bytes
resize n buffer = take n buffer ++ replicate (n - length buffer) 0

-- Bytes stored from an offset on, over what the buffer holds there.
abbrev pub store_at : ℕ → Bytes → Bytes → Bytes
store_at offset stored buffer =
    take offset buffer ++ (stored ++ drop (offset + length stored) buffer)

unfoldable pub new_connection : Connection
new_connection = record {
  state = created;
  send_buffer = [];
  receive_buffer = [];
  socket_fd = failure;
  io_mode = server_mode;
  io_client = none;
}

unfoldable pub set_io_client : Option ℕ → Connection → Connection
set_io_client client c = record c { io_client = client }

unfoldable pub set_io_fd : ℤ → Connection → Connection
set_io_fd fd c = record c { socket_fd = fd }

unfoldable pub get_fd : Connection → ℤ
get_fd c = c.socket_fd

module _ {W : Type 0} (os : Kernel W) (clients : IoClients W) where
  -- `m_ioClient.lock()`.
  unfoldable pub lock_client : Option ℕ → W → Option ℕ
  lock_client none w = none
  lock_client (some id) w = if clients.alive id w then some id else none

  -- The end of the connection, which the client is told of.
  tell_closed : ℕ → Connection → W → Option (ℤ × Connection × W)
  tell_closed client c w = do
    (_, c', w') ← clients.handle_event client close_event c w
    some (success, c', w')

  -- The branches on the result of the second `recv`.
  take_body : Recv → ℕ → Connection → W → Option (ℤ × Connection × W)
  unfolding tell_closed
  take_body (failed n) client c w = some (negsuc n, c, w)
  take_body (received []) client c w = tell_closed client c w
  take_body (received (b ∷ bs)) client c w = do
    let c₁ = record c { receive_buffer = store_at 0 (b ∷ bs) c.receive_buffer }
    let n = to_int (length (b ∷ bs))
    (_, c', w') ← clients.handle_data client (some c₁.receive_buffer) n c₁ w
    some (n, c', w')

  -- The branches on the result of the first `recv`.
  take_header : Recv → ℕ → Connection → W → Option (ℤ × Connection × W)
  unfolding take_body
  take_header (failed n) client c w = some (negsuc n, c, w)
  take_header (received []) client c w = tell_closed client c w
  take_header (received (b ∷ bs)) client c w = do
    let c₁ = record c { receive_buffer = store_at 0 (b ∷ bs) c.receive_buffer }
    header ← deserialer_from (some c₁.receive_buffer)
    let c₂ = record c₁ { receive_buffer = resize header.message_len c₁.receive_buffer }
    let (r, w') = os.recv c₂.socket_fd header.message_len w
    take_body r client c₂ w'

  -- The part of `onReadAvailable` behind its guards.
  read_message : ℕ → Connection → W → Option (ℤ × Connection × W)
  unfolding take_header
  read_message client c w = do
    let c₁ = record c { receive_buffer = resize tcp_header_size c.receive_buffer }
    let (r, w₁) = os.recv c₁.socket_fd tcp_header_size w
    (n, c₂, w₂) ← take_header r client c₁ w₁
    some (n, record c₂ { receive_buffer = [] }, w₂)

  unfoldable pub on_read_available : Connection → W → Option (ℤ × Connection × W)
  unfolding read_message lock_client
  on_read_available c w =
      if not (is_started c.state)
      then some (failure, c, w)
      else if is_neg c.socket_fd
      then some (failure, c, w)
      else elim (lock_client c.io_client w) [
        | none ↦ some (failure, c, w)
        | some client ↦ read_message client c w
      ]

  unfoldable pub on_io_error :
      IoMemberError → Connection → W → Option (IoMemberErrorAction × Connection × W)
  unfolding lock_client
  on_io_error epoll_failed c w = elim (lock_client c.io_client w) [
    | none ↦ some (keep, c, w)
    | some client ↦ do
      (_, c', w') ← clients.handle_event client close_event c w
      some (keep, c', w')
  ]

  -- `start()`, for a socket that is open already.
  unfoldable pub start : Connection → W → ℤ × Connection
  unfolding lock_client
  start c w = if not (is_created c.state) then (failure, c) else elim (lock_client c.io_client w) [
    | none ↦ (failure, c)
    | some _ ↦ if is_neg c.socket_fd then (failure, c) else (success, record c { state = started })
  ]

  -- `start(Ip, port)` from the call of `socket` on; `fd` is its result.
  connect_socket : ℤ → Bytes → ℤ → Connection → W → ℤ × Connection × W
  connect_socket fd ip port c w =
      let c₁ = record c { socket_fd = fd } in
      if is_neg fd
      then (failure, c₁, w)
      else let (r, w₁) = os.connect fd ip port w in
        if is_neg r
        then (failure, record c₁ { socket_fd = failure }, os.close fd w₁)
        else (success, record c₁ { io_mode = client_mode; state = started }, w₁)

  -- `Ip.length() < 0` never holds, since a length is unsigned.
  unfoldable pub start_to : Bytes → ℤ → Connection → W → ℤ × Connection × W
  unfolding connect_socket lock_client
  start_to ip port c w =
      if not (is_created c.state) then (failure, c, w) else elim (lock_client c.io_client w) [
        | none ↦ (failure, c, w)
        | some _ ↦
            if is_neg port
            then (failure, c, w)
            else let (fd, w₁) = os.socket w in connect_socket fd ip port c w₁
      ]

-- `TCP_HEADER_SIZE + len` is an `int`; `memcpy` reads `len` bytes at `data`.
fill_frame : Bytes → ℕ → Connection → Option Connection
fill_frame data_bytes len c =
    if not (ltb (tcp_header_size + len) (2 ^ 31)) || ltb (length data_bytes) len then none else do
      let buffer = resize (tcp_header_size + len) c.send_buffer
      headed ← serialer_to (record { magic = 0; message_len = len }) (some buffer)
      some (record c { send_buffer = store_at tcp_header_size (take len data_bytes) headed })

module _ {W : Type 0} (os : Kernel W) where
  -- `sendData` behind its guard on the state.
  send_checked : Option Bytes → ℤ → Connection → W → Option (ℤ × Connection × W)
  unfolding fill_frame
  send_checked none len c w = some (failure, c, w)
  send_checked (some data_bytes) (negsuc n) c w = some (failure, c, w)
  send_checked (some data_bytes) (pos zero) c w = some (failure, c, w)
  send_checked (some data_bytes) (pos (suc n)) c w = do
    filled ← fill_frame data_bytes (suc n) c
    let (res, w') = os.send filled.socket_fd filled.send_buffer w
    some (res, filled, w')

  unfoldable pub send_data : Option Bytes → ℤ → Connection → W → Option (ℤ × Connection × W)
  unfolding send_checked
  send_data data_bytes len c w =
      if not (is_started c.state) || is_neg c.socket_fd
      then some (failure, c, w)
      else send_checked data_bytes len c w

  -- `if (m_socketFd)`: only 0 counts as no socket.
  release_fd : ℤ → Connection → W → Connection × W
  release_fd (pos zero) c w = (c, w)
  release_fd fd c w = elim c.io_mode [
    | client_mode ↦ (record c { socket_fd = failure }, os.close fd w)
    | server_mode ↦ (record c { socket_fd = failure }, w)
  ]

  unfoldable pub stop : Connection → W → ℤ × Connection × W
  unfolding release_fd
  stop c w =
      if not (is_started c.state)
      then (failure, c, w)
      else let (c', w') = release_fd c.socket_fd c w in (success, record c' { state = created }, w')
