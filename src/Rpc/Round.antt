-- ===== src/Rpc/Round.antt =====
-- A request that arrives at a service, from the event loop to the reply on the wire:
-- `IoModule::waitThreadFunc`, `TcpIoConnection::onReadAvailable`, `RpcServiceClientEntry::handleData`
-- and what they call.
use deric_rpc.Prelude.{
  ℕ, ◌+◌, ◌^◌, ◌<◌, ℤ, pos, Bytes, length, [], ◌++◌, ◌≡◌, ◌≢◌, refl, true, false, some, take-length,
  arith, lookup, insert, contains, contains-lookup, nat_equality, int_equality, int_beq,
}
use deric_rpc.Common.{started}
use deric_rpc.Os.{Kernel}
use deric_rpc.Wire.Header.{tcp_header_size}
use deric_rpc.Io.Connection.{Connection}
use deric_rpc.Io.Connection.Framing.{
  Delivers, lift_kernel-Delivers, taken, frame, on_read_available-frame,
}
use deric_rpc.Io.Events.{IoModule}
use deric_rpc.Io.Events.Loop.{EpollEvent, IsReadable, Pending, handle_event}
use deric_rpc.Serial.{Msgpack}
use deric_rpc.Server.Client.{ClientEntry, IoConnection}
use deric_rpc.Server.Registry
use deric_rpc.Server.Host.{
  Host, connection_object, with_connection, kernel, entry_data, entries, read_connection,
  on_read_available, host_members,
}
use deric_rpc.Rpc.Served.{send_data-entry, handle_data-reply}

-- The client `id` is connected on the descriptor `fd`: its entry is in the service's table and its
-- connection in the event module's, and they point to each other.
pub record IsServing {V : Type 0} (m : IoModule) (σ : Host V) (fd id : ℕ) (e : ClientEntry)
    (c : Connection) : Type 0 where
  pub unlocked : m.members_locked ≡ false
  pub apart : int_beq (pos fd) m.wakeup_read_fd ≡ false
  pub registered : lookup (pos fd) m.io_members ≡ some (connection_object id)
  pub listed : lookup id σ.service.clients ≡ some e
  pub numbered : e.client_id ≡ id
  pub connected : e.io_connection ≡ some (record { object = connection_object id; connection = c })
  pub up : c.state ≡ started
  pub opened : c.socket_fd ≡ pos fd
  pub client : c.io_client ≡ some id

-- The process behind a reply.
abbrev pub replied_on : {V : Type 0} → Bytes → ℕ → ClientEntry → Connection → V → Host V → Host V
replied_on reply id e c w σ = record σ {
  world = w;
  service = record σ.service {
    clients =
        insert id (with_connection (record c { receive_buffer = []; send_buffer = frame reply }) e)
          σ.service.clients;
  };
}

module _ (mp : Msgpack) {V : Type 0} (os : Kernel V) where
  entry_data-answer :
      (message reply : Bytes) (res : ℤ) (fd id : ℕ) (e : ClientEntry) (c : Connection) (σ : Host V)
      (w : V)
      → lookup id σ.service.clients ≡ some e
      → c.state ≡ started
      → c.socket_fd ≡ pos fd
      → Registry.handle_data mp σ.service (some message) [] σ.world ≡ (res, reply, w)
      → reply ≢ []
      → tcp_header_size + length reply < 2 ^ 31
      → entry_data mp os id (some message) (pos (length message)) c σ
        ≡ some (
          (os.send (pos fd) (frame reply) w).0,
          record c { send_buffer = frame reply },
          record σ { world = (os.send (pos fd) (frame reply) w).1 },
        )
  unfolding entry_data
  entry_data-answer message reply res fd id e c σ w listed up opened answered ne small =
      let io : IoConnection = record { object = connection_object e.client_id; connection = c } in
      ground (
        arith,
        take-length message,
        handle_data-reply os mp σ.service (some message) res reply (with_connection c e) σ.world w
            answered ne (omega arith),
        send_data-entry os reply fd io (with_connection c e) w refl up opened ne small,
      )

  module _ (stream : V → Bytes) (fd : ℕ) (d : Delivers os fd stream) where
    lifted-Delivers : Delivers (kernel os) fd (λ (σ : Host V). stream σ.world)
    lifted-Delivers =
        lift_kernel-Delivers (λ σ. σ.world) (λ w σ. record σ { world = w }) (λ w σ. refl) os d

    read_connection-answer :
        (message reply rest : Bytes) (res : ℤ) (id : ℕ) (e : ClientEntry) (c : Connection)
        (m : IoModule) (σ : Host V) (w : V)
        → IsServing m σ fd id e c
        → message ≢ []
        → length message < 2 ^ 31
        → stream σ.world ≡ frame message ++ rest
        → Registry.handle_data mp σ.service (some message) [] (taken os fd message σ.world)
          ≡ (res, reply, w)
        → reply ≢ []
        → tcp_header_size + length reply < 2 ^ 31
        → on_read_available mp os (connection_object id) σ
          ≡ some
              (pos (length message), replied_on reply id e c (os.send (pos fd) (frame reply) w).1 σ)
    unfolding on_read_available read_connection
    read_connection-answer message reply rest res id e c m σ w s ne small front answered ne_reply
          small_reply =
        let σ₂ : Host V = record σ { world = taken os fd message σ.world } in
        let alive : contains id σ.service.clients ≡ true =
          ground (arith, s.listed, contains-lookup id σ.service.clients) in
        let (read, _) =
          on_read_available-frame (kernel os) (entries mp os) message rest fd id
            (λ (τ : Host V). stream τ.world) c σ lifted-Delivers s.up s.opened s.client alive ne
            small front in
        let handled =
          entry_data-answer message reply res fd id e (record c { receive_buffer = message }) σ₂ w
            s.listed s.up s.opened answered ne_reply small_reply in
        ground (arith, read, handled, s.listed, s.connected)

    -- A request that stands at the front of a client's stream, when epoll reports the client's
    -- descriptor as readable: the event thread takes exactly its frame off the stream, the service
    -- answers it, and exactly one frame, with the answer, is passed to `send` on the same descriptor.
    -- The event module and the service stay as they are, but for the buffers of the connection. The
    -- request is not empty and fits an `int`; the answer is not empty and fits one with its header.
    pub handle_event-answer :
        (message reply rest : Bytes) (res : ℤ) (id : ℕ) (e : ClientEntry) (c : Connection)
        (ev : EpollEvent) (p : Pending) (m : IoModule) (σ : Host V) (w : V)
        → IsServing m σ fd id e c
        → IsReadable ev (pos fd)
        → message ≢ []
        → length message < 2 ^ 31
        → stream σ.world ≡ frame message ++ rest
        → Registry.handle_data mp σ.service (some message) [] (taken os fd message σ.world)
          ≡ (res, reply, w)
        → reply ≢ []
        → tcp_header_size + length reply < 2 ^ 31
        → (handle_event (kernel os) (host_members mp os) ev p m σ
            ≡ some (
              p,
              m,
              replied_on reply id e c
                  (os.send (pos fd) (frame reply) w).1
                  (record σ { io_module = m }),
            ))
          × (stream (taken os fd message σ.world) ≡ rest)
    unfolding handle_event
    handle_event-answer message reply rest res id e c ev p m σ w s r ne small front answered
          ne_reply small_reply =
        let τ : Host V = record σ { io_module = m } in
        let s' : IsServing m τ fd id e c = record {
          unlocked = s.unlocked;
          apart = s.apart;
          registered = s.registered;
          listed = s.listed;
          numbered = s.numbered;
          connected = s.connected;
          up = s.up;
          opened = s.opened;
          client = s.client;
        } in
        let alive : contains id σ.service.clients ≡ true =
          ground (arith, s.listed, contains-lookup id σ.service.clients) in
        let (_, left) =
          on_read_available-frame (kernel os) (entries mp os) message rest fd id
            (λ (τ : Host V). stream τ.world) c σ lifted-Delivers s.up s.opened s.client alive ne
            small front in
        let run =
          read_connection-answer message reply rest res id e c m τ w s' ne small front answered
            ne_reply small_reply in
        (
          ground (
            arith, r.on_fd, r.input, r.no_error, r.no_hang_up, s.unlocked, s.apart, s.registered,
            run,
          ),
          left,
        )
