-- ===== src/Io/Server.antt =====
-- TcpIoServer: deric_rpc/io/src/tcp_io_server.cpp and its header. The event module is passed along;
-- `none` is a call that waits for its mutex for ever.
pub mod Lifecycle
use deric_rpc.Prelude.{
  ℕ, not, Bytes, [], Option, none, some, ◌>>=◌, ℤ, failure, success, is_neg, if◌then◌else◌,
}
use deric_rpc.Common.{
  ComponentState, created, initialized, started, is_created, is_initialized, is_started,
}
use deric_rpc.Os.{Kernel}
use deric_rpc.Io.Events.{IoModule, IoMember, add_io_member, remove_io_member}

pub record TcpIoServerConfig : Type 0 where
  pub ip : Bytes
  pub port : ℤ
  pub max_connection_number : ℤ
  pub server_client : Option ℕ

-- `m_client` is the number of the object that it points to.
pub record TcpIoServer : Type 0 where
  pub state : ComponentState
  pub ip : Bytes
  pub port : ℤ
  pub max_connection_number : ℤ
  pub socket_fd : ℤ
  pub client : Option ℕ
  pub io_entry : Option IoMember

unfoldable pub new_tcp_io_server : TcpIoServer
new_tcp_io_server = record {
  state = created;
  ip = [];
  port = failure;
  max_connection_number = success;
  socket_fd = failure;
  client = none;
  io_entry = none;
}

unfoldable pub init : TcpIoServerConfig → TcpIoServer → ℤ × TcpIoServer
init config s =
    if is_created s.state
    then (
      success,
      record s {
        ip = config.ip;
        port = config.port;
        max_connection_number = config.max_connection_number;
        client = config.server_client;
        state = initialized;
      },
    )
    else (failure, s)

unfoldable pub get_fd : TcpIoServer → ℤ
get_fd s = s.socket_fd

-- TcpIoServerEntry as a member of the event module.
abbrev pub entry_member : ℕ → ℤ → IoMember
entry_member entry fd = record { object = entry; fd = fd }

module _ {W : Type 0} (os : Kernel W) where
  -- From the call of `addIoMember` on; `entry` is the new TcpIoServerEntry object.
  register_entry : ℕ → TcpIoServer → IoModule → W → Option (ℤ × TcpIoServer × IoModule × W)
  register_entry entry s m w = do
    let member : IoMember = entry_member entry s.socket_fd
    (res, m₁, w₁) ← add_io_member os (some member) m w
    if is_neg res
        then some (res, record s { io_entry = none }, m₁, os.close s.socket_fd w₁)
        else some (res, record s { io_entry = some member; state = started }, m₁, w₁)

  -- From the call of `bind` on.
  bind_socket : ℕ → TcpIoServer → IoModule → W → Option (ℤ × TcpIoServer × IoModule × W)
  unfolding register_entry
  bind_socket entry s m w =
      let (bound, w₁) = os.bind s.socket_fd s.ip s.port w in
      if is_neg bound
      then some (bound, s, m, os.close s.socket_fd w₁)
      else let (listened, w₂) = os.listen s.socket_fd s.max_connection_number w₁ in
        if is_neg listened
        then some (listened, s, m, os.close s.socket_fd w₂)
        else register_entry entry s m w₂

  unfoldable pub start : ℕ → TcpIoServer → IoModule → W → Option (ℤ × TcpIoServer × IoModule × W)
  unfolding bind_socket
  start entry s m w =
      if not (is_initialized s.state)
      then some (failure, s, m, w)
      else let (fd, w₁) = os.socket w in
        let s₁ = record s { socket_fd = fd } in
        if is_neg fd then some (failure, s₁, m, w₁) else bind_socket entry s₁ m w₁

  -- `removeIoMember`, where there is an entry; its result is ignored.
  remove_entry : Option IoMember → IoModule → W → Option (IoModule × W)
  remove_entry none m w = some (m, w)
  remove_entry (some member) m w = do
    (_, m₁, w₁) ← remove_io_member os (some member) m w
    some (m₁, w₁)

  unfoldable pub stop : TcpIoServer → IoModule → W → Option (ℤ × TcpIoServer × IoModule × W)
  unfolding remove_entry
  stop s m w = if not (is_started s.state) then some (failure, s, m, w) else (do
    (m₁, w₁) ← remove_entry s.io_entry m w
    some (
      success,
      record s { io_entry = none; socket_fd = failure; state = initialized },
      m₁,
      os.close s.socket_fd w₁,
    ))

  abbrev reset : TcpIoServer → TcpIoServer
  reset s = record s {
    ip = [];
    port = failure;
    max_connection_number = success;
    client = none;
    state = created;
  }

  unfoldable pub de_init : TcpIoServer → IoModule → W → Option (ℤ × TcpIoServer × IoModule × W)
  unfolding stop
  de_init s m w =
      if is_started s.state
      then (do (res, s₁, m₁, w₁) ← stop s m w; some (res, reset s₁, m₁, w₁))
      else some (success, reset s, m, w)

  -- TcpIoServer::onIoError, which TcpIoServerEntry::onIoError passes on.
  unfoldable pub on_io_error : TcpIoServer → IoModule → W → Option (TcpIoServer × IoModule × W)
  unfolding stop
  on_io_error s m w = do (_, s₁, m₁, w₁) ← stop s m w; some (s₁, m₁, w₁)
