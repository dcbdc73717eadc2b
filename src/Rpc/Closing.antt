-- ===== src/Rpc/Closing.antt =====
-- What a service does when a client closes its side: `TcpIoConnection::onReadAvailable`,
-- `RpcServiceClientEntry::handleEvent` and what they call.
use deric_rpc.Prelude.{
  ℕ, suc, ℤ, pos, success, [], ◌≡◌, true, false, none, some, ◌>>=◌, arith, lookup, erase,
  lookup-erase, if◌then◌else◌, int_beq, nat_beq, contains, contains-lookup, nat_equality,
  int_equality, nat_beq_iff, failure,
}
use deric_rpc.Common.{created, started, close_event}
use deric_rpc.Os.{Kernel, received, epoll_del}
use deric_rpc.Wire.Header.{tcp_header_size}
use deric_rpc.Io.Connection.{Connection, IoClients, server_mode, resize}
use deric_rpc.Io.Connection
use deric_rpc.Io.Events.{IoModule, IoMember, modify_epoll_event}
use deric_rpc.Io.Events.Members.{remove_io_member_present}
use deric_rpc.Io.Events.Loop.{EpollEvent, IsReadable, Pending, handle_event}
use deric_rpc.Serial.{Msgpack}
use deric_rpc.Server.Client.{ClientEntry, stop}
use deric_rpc.Server.Service.{remove_io_connection_client}
use deric_rpc.Server.Handlers
use deric_rpc.Server.Host.{
  Host, connection_object, kernel, entries, entry_event, host_members, read_connection,
  on_read_available,
}
use deric_rpc.Rpc.Round.{IsServing}

module _ {W : Type 0} (os : Kernel W) (clients : IoClients W) where
  -- The end of the stream, where a header was expected.
  pub on_read_available-end :
      (fd id : ℕ) (c : Connection) (w : W)
      → c.state ≡ started
      → c.socket_fd ≡ pos fd
      → c.io_client ≡ some id
      → clients.alive id w ≡ true
      → (os.recv (pos fd) tcp_header_size w).0 ≡ received []
      → Connection.on_read_available os clients c w ≡ (do
        (_, c', w') ←
            clients.handle_event id close_event
              (record c { receive_buffer = resize tcp_header_size c.receive_buffer })
              (os.recv (pos fd) tcp_header_size w).1
        some (success, record c' { receive_buffer = [] }, w'))
  unfolding Connection.on_read_available
  on_read_available-end fd id c w up opened has live ended = ground arith

-- A connection of a service behind its `stop`: no descriptor is closed in server mode.
abbrev stopped : Connection → Connection
stopped c = record c { socket_fd = failure; state = created }

stop-server :
    {W : Type 0} (os : Kernel W) (fd : ℕ) (c : Connection) (w : W)
    → c.state ≡ started
    → c.socket_fd ≡ pos (suc fd)
    → c.io_mode ≡ server_mode
    → Connection.stop os c w ≡ (success, stopped c, w)
unfolding Connection.stop
stop-server os fd c w up opened mode = ground arith

module _ (mp : Msgpack) {V : Type 0} (os : Kernel V) where
  -- The process behind the end of the client `id` on the descriptor `fd`.
  abbrev pub without_client : ℕ → ℕ → V → Host V → Host V
  without_client fd id w σ =
      let m = record σ.io_module { io_members = erase (pos fd) σ.io_module.io_members } in
      record σ {
        world = (modify_epoll_event os epoll_del (pos fd) m w).1;
        io_module = m;
        service = remove_io_connection_client id σ.service;
      }

  pub entry_event-close :
      (fd id : ℕ) (e : ClientEntry) (c : Connection) (σ : Host V)
      → lookup id σ.service.clients ≡ some e
      → e.client_id ≡ id
      → c.state ≡ started
      → c.socket_fd ≡ pos (suc fd)
      → c.io_mode ≡ server_mode
      → σ.io_module.members_locked ≡ false
      → contains (pos (suc fd)) σ.io_module.io_members ≡ true
      → entry_event mp os id close_event c σ
        ≡ some (success, stopped c, without_client (suc fd) id σ.world σ)
  unfolding entry_event Handlers.handle_event stop Connection.get_fd modify_epoll_event erase
      remove_io_connection_client
  entry_event-close fd id e c σ listed numbered up opened mode free used =
      let member : IoMember = record { object = connection_object id; fd = pos (suc fd) } in
      let w = (modify_epoll_event os epoll_del (pos (suc fd)) σ.io_module σ.world).1 in
      let removed = remove_io_member_present os member σ.io_module σ.world free used in
      simp (listed, numbered, opened, removed, stop-server os fd c w up opened mode)

  read_connection-close :
      (fd id : ℕ) (e : ClientEntry) (c : Connection) (σ : Host V)
      → IsServing σ.io_module σ (suc fd) id e c
      → c.io_mode ≡ server_mode
      → (os.recv (pos (suc fd)) tcp_header_size σ.world).0 ≡ received []
      → on_read_available mp os (connection_object id) σ
        ≡ some (
          success,
          without_client (suc fd) id (os.recv (pos (suc fd)) tcp_header_size σ.world).1 σ,
        )
  unfolding on_read_available read_connection remove_io_connection_client
  read_connection-close fd id e c σ s mode ended =
      let w = (os.recv (pos (suc fd)) tcp_header_size σ.world).1 in
      let σ₁ : Host V = record σ { world = w } in
      let c₁ : Connection = record c { receive_buffer = resize tcp_header_size c.receive_buffer } in
      let alive : contains id σ.service.clients ≡ true =
        ground (arith, s.listed, contains-lookup id σ.service.clients) in
      let used : contains (pos (suc fd)) σ.io_module.io_members ≡ true =
        ground (arith, s.registered, contains-lookup (pos (suc fd)) σ.io_module.io_members) in
      let read =
        on_read_available-end (kernel os) (entries mp os) (suc fd) id c σ s.up s.opened s.client
          alive ended in
      let closed =
        entry_event-close fd id e c₁ σ₁ s.listed s.numbered s.up s.opened mode s.unlocked used in
      ground (
        arith,
        read,
        closed,
        s.listed,
        s.connected,
        lookup-erase id id σ.service.clients,
        nat_beq_iff id id,
      )

  -- The end of a client's stream, when epoll reports its descriptor as readable and no header
  -- comes: the event thread takes the descriptor out of epoll and of the member table, and the
  -- client out of the service's table; every other member and client is found as before, and no
  -- mutex is left locked. The descriptor is not closed: the world is the one that `recv` and
  -- `epoll_ctl` leave. The event module runs, the
  -- connection is one that the service accepted, and its descriptor is not 0.
  pub handle_event-close :
      (fd id epoll_fd : ℕ) (e : ClientEntry) (c : Connection) (ev : EpollEvent) (p : Pending)
      (m : IoModule) (σ : Host V)
      → IsServing m σ (suc fd) id e c
      → IsReadable ev (pos (suc fd))
      → c.io_mode ≡ server_mode
      → (os.recv (pos (suc fd)) tcp_header_size σ.world).0 ≡ received []
      → m.state ≡ started
      → m.epoll_fd ≡ pos epoll_fd
      → (m' : IoModule) × (σ' : Host V) × (handle_event (kernel os) (host_members mp os) ev p m σ
          ≡ some (p, m', σ'))
        × (σ'.world
            ≡ (os.epoll_ctl epoll_del
                (pos epoll_fd)
                (pos (suc fd))
                (os.recv (pos (suc fd)) tcp_header_size σ.world).1).1)
        × (m'.members_locked ≡ false)
        × ((other : ℤ)
            → lookup other m'.io_members
              ≡ (if int_beq (pos (suc fd)) other then none else lookup other m.io_members))
        × ((other : ℕ)
            → lookup other σ'.service.clients
              ≡ (if nat_beq id other then none else lookup other σ.service.clients))
  unfolding handle_event modify_epoll_event remove_io_connection_client
  handle_event-close fd id epoll_fd e c ev p m σ s r mode ended up epoll =
      let τ : Host V = record σ { io_module = m } in
      let s' : IsServing m τ (suc fd) id e c = record {
        unlocked = s.unlocked;
        apart = s.apart;
        registered = s.registered;
        listed = s.listed;
        numbered = s.numbered;
        connected = s.connected;
        up = s.up;
        opened = s.opened;
        client = s.client;
      } in
      let run = read_connection-close fd id e c τ s' mode ended in
      (
        record m { io_members = erase (pos (suc fd)) m.io_members },
        without_client (suc fd) id (os.recv (pos (suc fd)) tcp_header_size σ.world).1 τ,
        ground (
          arith, r.on_fd, r.input, r.no_error, r.no_hang_up, s.unlocked, s.apart, s.registered, run,
        ),
        ground (arith, up, epoll),
        s.unlocked,
        λ other. lookup-erase (pos (suc fd)) other m.io_members,
        λ other. lookup-erase id other σ.service.clients,
      )
