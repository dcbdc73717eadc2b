-- ===== src/Rpc/HangUp.antt =====
-- What a service does when epoll reports an error or a hang-up of a client's connection:
-- `TcpIoConnection::onIoError` and `RpcServiceClientEntry::handleEvent`.
use deric_rpc.Prelude.{
  ℕ, suc, ℤ, pos, not, ◌||◌, ◌≡◌, true, false, none, some, ◌>>=◌, arith, lookup, erase,
  lookup-erase, if◌then◌else◌, int_beq, nat_beq, contains, contains-lookup, nat_equality,
  int_equality, nat_beq_iff,
}
use deric_rpc.Common.{started, close_event, keep, epoll_failed}
use deric_rpc.Os.{Kernel, epoll_del}
use deric_rpc.Io.Connection.{Connection, IoClients, server_mode}
use deric_rpc.Io.Connection
use deric_rpc.Io.Events.{IoModule, modify_epoll_event}
use deric_rpc.Io.Events.Loop.{EpollEvent, Pending, handle_event}
use deric_rpc.Serial.{Msgpack}
use deric_rpc.Server.Client.{ClientEntry}
use deric_rpc.Server.Service.{remove_io_connection_client}
use deric_rpc.Server.Host.{Host, connection_object, kernel, entries, host_members, on_io_error}
use deric_rpc.Rpc.Round.{IsServing}
use deric_rpc.Rpc.Closing.{without_client, entry_event-close}

on_io_error-told :
    {W : Type 0} (os : Kernel W) (clients : IoClients W) (id : ℕ) (c : Connection) (w : W)
    → c.io_client ≡ some id
    → clients.alive id w ≡ true
    → Connection.on_io_error os clients epoll_failed c w
      ≡ (do (_, c', w') ← clients.handle_event id close_event c w; some (keep, c', w'))
unfolding Connection.on_io_error
on_io_error-told os clients id c w has live = ground arith

module _ (mp : Msgpack) {V : Type 0} (os : Kernel V) where
  fail_connection-close :
      (fd id : ℕ) (e : ClientEntry) (c : Connection) (σ : Host V)
      → IsServing σ.io_module σ (suc fd) id e c
      → c.io_mode ≡ server_mode
      → on_io_error mp os (connection_object id) epoll_failed σ
        ≡ some (keep, without_client mp os (suc fd) id σ.world σ)
  unfolding on_io_error remove_io_connection_client
  fail_connection-close fd id e c σ s mode =
      let alive : contains id σ.service.clients ≡ true =
        ground (arith, s.listed, contains-lookup id σ.service.clients) in
      let used : contains (pos (suc fd)) σ.io_module.io_members ≡ true =
        ground (arith, s.registered, contains-lookup (pos (suc fd)) σ.io_module.io_members) in
      let told = on_io_error-told (kernel os) (entries mp os) id c σ s.client alive in
      let closed =
        entry_event-close mp os fd id e c σ s.listed s.numbered s.up s.opened mode s.unlocked
          used in
      ground (
        arith,
        told,
        closed,
        s.listed,
        s.connected,
        lookup-erase id id σ.service.clients,
        nat_beq_iff id id,
      )

  -- An error or a hang-up of a client's connection, or an event there without input: the event
  -- thread reads nothing, even where the client's last requests are still in the stream, and it
  -- asks the loop for no descriptor to be closed. The descriptor goes out of epoll and of the
  -- member table, and the client out of the service's table; every other member and client is
  -- found as before, and no mutex is left locked. The descriptor is not closed: the world is the
  -- one that `epoll_ctl` leaves. The event module runs, the connection is one that the service
  -- accepted, and its descriptor is not 0.
  pub handle_event-hang_up :
      (fd id epoll_fd : ℕ) (e : ClientEntry) (c : Connection) (ev : EpollEvent) (p : Pending)
      (m : IoModule) (σ : Host V)
      → IsServing m σ (suc fd) id e c
      → ev.fd ≡ pos (suc fd)
      → ev.error || ev.hang_up || not ev.readable ≡ true
      → c.io_mode ≡ server_mode
      → m.state ≡ started
      → m.epoll_fd ≡ pos epoll_fd
      → (m' : IoModule) × (σ' : Host V) × (handle_event (kernel os) (host_members mp os) ev p m σ
          ≡ some (p, m', σ'))
        × (σ'.world ≡ (os.epoll_ctl epoll_del (pos epoll_fd) (pos (suc fd)) σ.world).1)
        × (m'.members_locked ≡ false)
        × ((other : ℤ)
            → lookup other m'.io_members
              ≡ (if int_beq (pos (suc fd)) other then none else lookup other m.io_members))
        × ((other : ℕ)
            → lookup other σ'.service.clients
              ≡ (if nat_beq id other then none else lookup other σ.service.clients))
  unfolding handle_event modify_epoll_event remove_io_connection_client
  handle_event-hang_up fd id epoll_fd e c ev p m σ s on_fd bad mode up epoll =
      let τ : Host V = record σ { io_module = m } in
      let s' : IsServing m τ (suc fd) id e c = record {
        unlocked = s.unlocked;
        apart = s.apart;
        registered = s.registered;
        listed = s.listed;
        numbered = s.numbered;
        connected = s.connected;
        up = s.up;
        opened = s.opened;
        client = s.client;
      } in
      let run = fail_connection-close fd id e c τ s' mode in
      (
        record m { io_members = erase (pos (suc fd)) m.io_members },
        without_client mp os (suc fd) id σ.world τ,
        ground (arith, on_fd, bad, s.unlocked, s.apart, s.registered, run),
        ground (arith, up, epoll),
        s.unlocked,
        λ other. lookup-erase (pos (suc fd)) other m.io_members,
        λ other. lookup-erase id other σ.service.clients,
      )
