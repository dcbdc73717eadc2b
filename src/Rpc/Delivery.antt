-- ===== src/Rpc/Delivery.antt =====
-- A reply that arrives at a client, from the event loop to the caller that waits for it:
-- `IoModule::waitThreadFunc`, `TcpIoConnection::onReadAvailable`, `RpcClientImpl::handleData` and
-- `RpcClientEntry::serviceMessageCallback`.
use deric_rpc.Prelude.{
  ℕ, ◌^◌, ◌<◌, ℤ, pos, Bytes, length, [], ◌∷◌, ◌++◌, ◌≡◌, ◌≢◌, refl, true, false, some, arith,
  lookup, insert, contains, int_equality, int_beq, int_beq_iff, nat_beq_iff, take-length,
  to_int_small,
}
use deric_rpc.Common.{started}
use deric_rpc.Os.{Kernel}
use deric_rpc.Io.Connection.{Connection}
use deric_rpc.Io.Connection.Framing.{
  Delivers, lift_kernel-Delivers, taken, frame, on_read_available-frame,
}
use deric_rpc.Io.Events.{IoModule}
use deric_rpc.Io.Events.Loop.{EpollEvent, IsReadable, Pending, handle_event}
use deric_rpc.Serial.{Msgpack, get_message_type}
use deric_rpc.Server.Registry.{message_type_replay}
use deric_rpc.Client.Impl.{ClientImpl}
use deric_rpc.Client.Impl
use deric_rpc.Client.Entry.{ClientEntry, store_reply, service_message_callback}
use deric_rpc.Client.Entry.Waiting.{IsReply}
use deric_rpc.Client.Host.{
  ClientHost, kernel, impl_data, impl_client, on_read_available, client_members,
}

-- The client is connected on the descriptor `fd`: its connection is in the event module's table, it
-- points to the client, and the client's callback is set.
pub record IsCalling {V : Type 0} (m : IoModule) (σ : ClientHost V) (fd self object : ℕ)
    (impl : ClientImpl) (c : Connection) : Type 0 where
  pub unlocked : m.members_locked ≡ false
  pub apart : int_beq (pos fd) m.wakeup_read_fd ≡ false
  pub registered : lookup (pos fd) m.io_members ≡ some object
  pub serialer : σ.client.has_serialer ≡ true
  pub has_impl : σ.client.client_impl ≡ some impl
  pub callback : impl.has_callback ≡ true
  pub connected : impl.io_connection ≡ some (record { object = object; connection = c })
  pub up : c.state ≡ started
  pub opened : c.socket_fd ≡ pos fd
  pub client : c.io_client ≡ some self

module _ (mp : Msgpack) {V : Type 0} (os : Kernel V) where
  -- The process behind a reply that was stored for the call `msg_id`.
  abbrev pub delivered_on :
      Bytes → ℤ → ℕ → ClientImpl → Connection → V → ClientHost V → ClientHost V
  delivered_on message msg_id object impl c w σ = record σ {
    world = w;
    client = record σ.client {
      client_impl = some (record impl {
        io_connection =
            some (record { object = object; connection = record c { receive_buffer = [] } });
      });
      waiting_items = insert msg_id message σ.client.waiting_items;
    };
    notified = σ.notified ++ msg_id ∷ [];
  }

  store_reply-IsReply :
      (message : Bytes) (msg_id : ℤ) (e : ClientEntry)
      → e.has_serialer ≡ true
      → IsReply mp msg_id message
      → contains msg_id e.waiting_items ≡ true
      → service_message_callback mp message e
        ≡ (record e { waiting_items = insert msg_id message e.waiting_items }, some msg_id)
  unfolding service_message_callback store_reply
  store_reply-IsReply message msg_id e serialer reply waits =
      ground
        (arith, reply.0, reply.1, int_beq_iff (get_message_type mp message) message_type_replay)

  impl_data-reply :
      (message : Bytes) (msg_id : ℤ) (impl : ClientImpl) (c : Connection) (σ : ClientHost V)
      → σ.client.has_serialer ≡ true
      → σ.client.client_impl ≡ some impl
      → impl.has_callback ≡ true
      → message ≢ []
      → length message < 2 ^ 31
      → IsReply mp msg_id message
      → contains msg_id σ.client.waiting_items ≡ true
      → impl_data mp (some message) (pos (length message)) c σ
        ≡ some (
          pos 0,
          c,
          record σ {
            client = record σ.client {
              waiting_items = insert msg_id message σ.client.waiting_items;
            };
            notified = σ.notified ++ msg_id ∷ [];
          },
        )
  unfolding impl_data Impl.handle_data
  impl_data-reply [] msg_id impl c σ serialer has_impl callback ne small reply waits =
      absurd (ne refl)
  impl_data-reply (b ∷ bs) msg_id impl c σ serialer has_impl callback ne small reply waits =
      ground (
        arith,
        take-length (b ∷ bs),
        to_int_small (length (b ∷ bs)) small,
        store_reply-IsReply (b ∷ bs) msg_id σ.client serialer reply waits,
      )

  module _ (stream : V → Bytes) (fd : ℕ) (d : Delivers os fd stream) where
    lifted-Delivers : Delivers (kernel os) fd (λ (σ : ClientHost V). stream σ.world)
    lifted-Delivers =
        lift_kernel-Delivers (λ σ. σ.world) (λ w σ. record σ { world = w }) (λ w σ. refl) os d

    on_read_available-reply :
        (message rest : Bytes) (msg_id : ℤ) (self object : ℕ) (impl : ClientImpl) (c : Connection)
        (m : IoModule) (σ : ClientHost V)
        → IsCalling m σ fd self object impl c
        → message ≢ []
        → length message < 2 ^ 31
        → stream σ.world ≡ frame message ++ rest
        → IsReply mp msg_id message
        → contains msg_id σ.client.waiting_items ≡ true
        → (on_read_available mp os object σ
            ≡ some (
              pos (length message),
              delivered_on message msg_id object impl c (taken os fd message σ.world) σ,
            ))
          × (stream (taken os fd message σ.world) ≡ rest)
    unfolding on_read_available
    on_read_available-reply message rest msg_id self object impl c m σ s ne small front reply
          waits =
        let σ₂ : ClientHost V = record σ { world = taken os fd message σ.world } in
        let (read, left) =
          on_read_available-frame (kernel os) (impl_client mp) message rest fd self
            (λ (τ : ClientHost V). stream τ.world) c σ lifted-Delivers s.up s.opened s.client
            (ground (arith, s.has_impl)) ne small front in
        let stored =
          impl_data-reply message msg_id impl (record c { receive_buffer = message }) σ₂ s.serialer
            s.has_impl s.callback ne small reply waits in
        (ground (arith, read, stored, s.has_impl, s.connected, nat_beq_iff object object), left)

    -- A reply that stands at the front of the client's stream, when epoll reports the client's
    -- descriptor as readable: the event thread takes exactly its frame off the stream, stores it
    -- in the waiting item of its message id, which is there, and notifies that item's condition
    -- variable alone. The event module, the other items and the rest of the client stay as they
    -- are. The reply is not empty and shorter than 2 ^ 31 bytes.
    pub handle_event-reply :
        (message rest : Bytes) (msg_id : ℤ) (self object : ℕ) (impl : ClientImpl) (c : Connection)
        (ev : EpollEvent) (p : Pending) (m : IoModule) (σ : ClientHost V)
        → IsCalling m σ fd self object impl c
        → IsReadable ev (pos fd)
        → message ≢ []
        → length message < 2 ^ 31
        → stream σ.world ≡ frame message ++ rest
        → IsReply mp msg_id message
        → contains msg_id σ.client.waiting_items ≡ true
        → (handle_event (kernel os) (client_members mp os) ev p m σ
            ≡ some
                (p, m, delivered_on message msg_id object impl c (taken os fd message σ.world) σ))
          × (stream (taken os fd message σ.world) ≡ rest)
    unfolding handle_event
    handle_event-reply message rest msg_id self object impl c ev p m σ s r ne small front reply
          waits =
        let (run, left) =
          on_read_available-reply message rest msg_id self object impl c m σ s ne small front reply
            waits in
        (
          ground (
            arith, r.on_fd, r.input, r.no_error, r.no_hang_up, s.unlocked, s.apart, s.registered,
            run,
          ),
          left,
        )
