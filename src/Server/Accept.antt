-- ===== src/Server/Accept.antt =====
-- `TcpIoServer::onConnectRequest` of deric_rpc/io/src/tcp_io_server.cpp, with a RpcServiceImpl as the
-- server's client. `entry_object` and `object` are the numbers of the new RpcServiceClientEntry and of
-- the new connection. The table of clients and the caller share the entry, so a change of it is
-- written back to the table.
use deric_rpc.Prelude.{
  ℕ, ◌+◌, ◌%◌, ◌^◌, Bool, true, false, not, ◌≡◌, refl, Option, none, some, ◌>>=◌, arith, ℤ, pos,
  failure, success, is_neg, if◌then◌else◌, insert, lookup, contains, nat_equality, int_equality,
  lookup-insert, nat_beq_iff, int_beq_iff,
}
use deric_rpc.Common.{started, is_started}
use deric_rpc.Os.{Kernel, epoll_add}
use deric_rpc.Io.Connection.{
  Connection, IoClients, new_connection, set_io_client, set_io_fd, get_fd,
}
use deric_rpc.Io.Connection
use deric_rpc.Io.Events.{IoModule, IoMember, wakeup_module, modify_epoll_event}
use deric_rpc.Io.Events.Members.{with_member, add_io_member_free}
use deric_rpc.Io.Server.{TcpIoServer}
use deric_rpc.Server.Client.{ClientEntry, IoConnection, set_io_connection, member_of}
use deric_rpc.Server.Client
use deric_rpc.Server.Service.{Service, create_io_connection_client, remove_io_connection_client}

module _ {W : Type 0} (os : Kernel W) (clients : IoClients W) (service_alive : W → Bool) where
  -- The connection object that is made for an accepted descriptor.
  abbrev pub accepted_connection : ℕ → ℕ → ℤ → IoConnection
  accepted_connection entry_object object fd = record {
    object = object;
    connection = set_io_client (some entry_object) (set_io_fd fd new_connection);
  }

  -- From `createIoConnectionClient` on. The new counter of client ids is part of the result.
  admit : ℕ → ℕ → ℤ → ℕ → Service W → IoModule → W → Option (ℤ × Service W × ℕ × IoModule × W)
  admit entry_object object fd index s m w = do
    let (entry, s₁, client_id) = create_io_connection_client index s
    let entry₁ = set_io_connection (some (accepted_connection entry_object object fd)) entry
    (res, entry₂, m₁, w₁) ← Client.start_io_client os clients service_alive entry₁ m w
    let s₂ = record s₁ { clients = insert client_id entry₂ s₁.clients }
    if is_neg res
        then some (res, remove_io_connection_client client_id s₂, client_id, m₁, os.close fd w₁)
        else some (res, s₂, client_id, m₁, w₁)

  unfoldable pub on_connect_request :
      ℕ → ℕ → ℕ → TcpIoServer → Service W → IoModule → W → Option (ℤ × Service W × ℕ × IoModule × W)
  unfolding admit
  on_connect_request entry_object object index server s m w =
      if not (is_started server.state) then some (failure, s, index, m, w) else elim server.client [
        | none ↦ some (failure, s, index, m, w)
        | some _ ↦
            let (fd, w₁) = os.accept server.socket_fd w in
            if is_neg fd
            then some (failure, s, index, m, w₁)
            else admit entry_object object fd index s m w₁
      ]

  -- The entry and its connection behind a start.
  abbrev pub started_entry : ℕ → ℕ → ℕ → ℕ → ClientEntry
  started_entry client_id entry_object object fd = record {
    client_id = client_id;
    io_connection = some (record {
      object = object;
      connection = record new_connection {
        state = started;
        socket_fd = pos fd;
        io_client = some entry_object;
      };
    });
  }

  start-accepted :
      (client_id entry_object object fd : ℕ) (m : IoModule) (w : W)
      → service_alive w ≡ true
      → clients.alive entry_object w ≡ true
      → m.members_locked ≡ false
      → contains (pos fd) m.io_members ≡ false
      → (w' : W) × (Client.start os clients service_alive
            (record {
              client_id = client_id;
              io_connection = some (accepted_connection entry_object object (pos fd));
            })
            m
            w
          ≡ some (
            success,
            started_entry client_id entry_object object fd,
            with_member os (record { object = object; fd = pos fd }) m,
            w',
          ))
  unfolding Client.start Connection.start set_io_client set_io_fd new_connection get_fd
  start-accepted client_id entry_object object fd m w served live free fresh =
      let member : IoMember = record { object = object; fd = pos fd } in
      let added = add_io_member_free os member m w refl free fresh in
      (
        wakeup_module os (with_member os member m) (modify_epoll_event os epoll_add (pos fd) m w).1,
        ground (arith, served, live, added),
      )

  -- A started server that accepts a descriptor which is not registered yet makes an entry for it:
  -- the request succeeds, the service has the entry under the next client id, its connection is
  -- started on the descriptor, and the event module has the connection under it. The mutex of the
  -- members is free, and the service and the new entry live.
  pub on_connect_request_admits :
      (entry_object object index client fd : ℕ) (server : TcpIoServer) (s : Service W)
      (m : IoModule) (w : W)
      → server.state ≡ started
      → server.client ≡ some client
      → (os.accept server.socket_fd w).0 ≡ pos fd
      → service_alive (os.accept server.socket_fd w).1 ≡ true
      → clients.alive entry_object (os.accept server.socket_fd w).1 ≡ true
      → m.members_locked ≡ false
      → contains (pos fd) m.io_members ≡ false
      → (s' : Service W) × (m' : IoModule) × (w' : W) × (on_connect_request entry_object object
            index server s m w
          ≡ some (success, s', (index + 1) % 2 ^ 32, m', w'))
        × (lookup ((index + 1) % 2 ^ 32) s'.clients
            ≡ some (started_entry ((index + 1) % 2 ^ 32) entry_object object fd))
        × (lookup (pos fd) m'.io_members ≡ some object)
        × (m'.members_locked ≡ false)
  unfolding on_connect_request create_io_connection_client Client.new_client_entry set_io_connection
  on_connect_request_admits entry_object object index client fd server s m w st has_client got
        served live free fresh =
      let w₁ = (os.accept server.socket_fd w).1 in
      let id = (index + 1) % 2 ^ 32 in
      let entry = started_entry id entry_object object fd in
      let (w', ran) = start-accepted id entry_object object fd m w₁ served live free fresh in
      let s₁ = (create_io_connection_client index s).1 in
      (
        record s₁ { clients = insert id entry s₁.clients },
        with_member os (record { object = object; fd = pos fd }) m,
        w',
        ground (arith, st, has_client, got, ran),
        ground (arith, lookup-insert id id entry s₁.clients, nat_beq_iff id id),
        ground (
          arith,
          lookup-insert (pos fd) (pos fd) object m.io_members,
          int_beq_iff (pos fd) (pos fd),
        ),
        free,
      )
