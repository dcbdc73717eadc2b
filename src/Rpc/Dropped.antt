-- ===== src/Rpc/Dropped.antt =====
-- What a client does when its service ends the connection: `TcpIoConnection::onReadAvailable`,
-- `RpcClientImpl::handleEvent` and the loop of `IoModule::waitThreadFunc`.
use deric_rpc.Prelude.{
  ℕ, zero, suc, pos, [], ◌∷◌, replicate, ◌≡◌, refl, false, none, some, arith, lookup, insert,
  lookup-insert, nat_equality, nat_beq, nat_beq_iff, int_equality, int_beq,
}
use deric_rpc.Common.{started}
use deric_rpc.Os.{Kernel, received}
use deric_rpc.Wire.Header.{tcp_header_size}
use deric_rpc.Io.Connection.{Connection}
use deric_rpc.Io.Events.{IoModule, io_module_stop_flag}
use deric_rpc.Io.Events.Loop.{
  EpollEvent, IsReadable, Pending, handle_event, handle_events, close_members, wait_loop,
}
use deric_rpc.Serial.{Msgpack}
use deric_rpc.Client.Impl.{ClientImpl}
use deric_rpc.Client.Impl
use deric_rpc.Client.Host.{
  ClientHost, kernel, impl_event, impl_client, on_read_available, client_members,
}
use deric_rpc.Rpc.Delivery.{IsCalling}
use deric_rpc.Rpc.Closing.{on_read_available-end}

-- The client has dropped the connection `object`, which the event module still has on `fd`.
pub record HasDropped {V : Type 0} (m : IoModule) (σ : ClientHost V) (fd self object : ℕ)
    (impl : ClientImpl) (c : Connection) : Type 0 where
  pub unlocked : m.members_locked ≡ false
  pub apart : int_beq (pos fd) m.wakeup_read_fd ≡ false
  pub registered : lookup (pos fd) m.io_members ≡ some object
  pub has_impl : σ.client.client_impl ≡ some (record impl { io_connection = none })
  pub found : lookup object σ.dropped ≡ some c
  pub up : c.state ≡ started
  pub opened : c.socket_fd ≡ pos fd
  pub client : c.io_client ≡ some self

module _ {V : Type 0} (os : Kernel V) (fd : ℕ) where
  -- The world behind some calls of `recv` and nothing else.
  abbrev pub received_times : ℕ → V → V
  received_times zero w = w
  received_times (suc n) w = received_times n (os.recv (pos fd) tcp_header_size w).1

  -- What the rounds leave of a client: no caller is notified, the items stay, and the connection is
  -- gone for the client and started for the event module.
  abbrev pub IsStranded : IoModule → ℕ → ℕ → ClientImpl → ℕ → ClientHost V → ClientHost V → Type 0
  IsStranded m self object impl rounds σ σ' =
      (σ'.world ≡ received_times rounds σ.world)
      × (σ'.notified ≡ σ.notified)
      × (σ'.client.waiting_items ≡ σ.client.waiting_items)
      × ((c : Connection) × HasDropped m σ' fd self object impl c)

module _ (mp : Msgpack) {V : Type 0} (os : Kernel V) (fd : ℕ)
    (ended : (w : V) → (os.recv (pos fd) tcp_header_size w).0 ≡ received []) where
  -- The process behind the end of the stream.
  abbrev pub dropped_on : ℕ → ClientImpl → Connection → ClientHost V → ClientHost V
  dropped_on object impl c σ = record σ {
    world = (os.recv (pos fd) tcp_header_size σ.world).1;
    client = record σ.client { client_impl = some (record impl { io_connection = none }) };
    dropped = insert object (record c { receive_buffer = [] }) σ.dropped;
  }

  dropped_on-HasDropped :
      (self object : ℕ) (impl : ClientImpl) (c : Connection) (m : IoModule) (σ : ClientHost V)
      → m.members_locked ≡ false
      → int_beq (pos fd) m.wakeup_read_fd ≡ false
      → lookup (pos fd) m.io_members ≡ some object
      → c.state ≡ started
      → c.socket_fd ≡ pos fd
      → c.io_client ≡ some self
      → HasDropped m
          (dropped_on object impl c σ)
          fd
          self
          object
          impl
          (record c { receive_buffer = [] })
  dropped_on-HasDropped self object impl c m σ unlocked apart registered up opened client = record {
    unlocked = unlocked;
    apart = apart;
    registered = registered;
    has_impl = refl;
    found = ground (
      arith,
      lookup-insert object object (record c { receive_buffer = [] }) σ.dropped,
      nat_beq_iff object object,
    );
    up = up;
    opened = opened;
    client = client;
  }

  module _ (self object : ℕ) (impl : ClientImpl) (ev : EpollEvent) (r : IsReadable ev (pos fd))
      (m : IoModule) (p : Pending) where
    handle_event-own :
        (c : Connection) (σ : ClientHost V)
        → IsCalling m σ fd self object impl c
        → handle_event (kernel os) (client_members mp os) ev p m σ
          ≡ some (p, m, dropped_on object impl c σ)
    unfolding handle_event on_read_available impl_event Impl.handle_event
    handle_event-own c σ s =
        let read =
          on_read_available-end (kernel os) (impl_client mp) fd self c σ s.up s.opened s.client
            (ground (arith, s.has_impl)) (ended σ.world) in
        ground (
          arith,
          r.on_fd,
          r.input,
          r.no_error,
          r.no_hang_up,
          s.unlocked,
          s.apart,
          s.registered,
          read,
          s.has_impl,
          s.connected,
          nat_beq_iff object object,
        )

    handle_event-dropped :
        (c : Connection) (σ : ClientHost V)
        → HasDropped m σ fd self object impl c
        → handle_event (kernel os) (client_members mp os) ev p m σ
          ≡ some (p, m, dropped_on object impl c σ)
    unfolding handle_event on_read_available impl_event Impl.handle_event
    handle_event-dropped c σ s =
        let read =
          on_read_available-end (kernel os) (impl_client mp) fd self c σ s.up s.opened s.client
            (ground (arith, s.has_impl)) (ended σ.world) in
        ground (
          arith, r.on_fd, r.input, r.no_error, r.no_hang_up, s.unlocked, s.apart, s.registered,
          read, s.has_impl, s.found,
        )

  module _ (self object : ℕ) (impl : ClientImpl) (ev : EpollEvent) (r : IsReadable ev (pos fd))
      (m : IoModule) where
    wait_loop-dropped :
        (rounds : ℕ) (p : Pending) (c : Connection) (σ : ClientHost V)
        → HasDropped m σ fd self object impl c
        → p.close_fds ≡ []
        → nat_beq p.wakeup_flag io_module_stop_flag ≡ false
        → (σ' : ClientHost V) × (wait_loop
              (kernel os)
              (client_members mp os)
              (replicate rounds (ev ∷ []))
              p
              m
              σ
            ≡ some (false, m, σ'))
          × IsStranded os fd m self object impl rounds σ σ'
    unfolding wait_loop handle_events close_members
    wait_loop-dropped zero p c σ s closed flag = (σ, refl, (refl, refl, refl, (c, s)))
    wait_loop-dropped (suc n) p c σ s closed flag =
        let σ₁ = dropped_on object impl c σ in
        let s₁ =
          dropped_on-HasDropped self object impl c m σ s.unlocked s.apart s.registered s.up s.opened
            s.client in
        let run = handle_event-dropped self object impl ev r m p c σ s in
        let (σ', rounds, stranded) =
          wait_loop-dropped n (record p { close_fds = [] }) _ σ₁ s₁ refl flag in
        (σ', ground (arith, run, rounds, closed, flag), stranded)

    -- A client whose service has ended the connection: the event thread finds the descriptor readable
    -- in every round, since the client drops its connection, but neither takes it out of the
    -- event module nor closes it: in any number of rounds, at least one, the only system call is
    -- one `recv` for each, the member is in the table after them with its connection started on
    -- the same descriptor, and no caller that waits for a reply is notified. The stream stays at
    -- its end, no member was to be closed, and the stop flag was not read.
    pub wait_loop_strands_client :
        (rounds : ℕ) (p : Pending) (c : Connection) (σ : ClientHost V)
        → IsCalling m σ fd self object impl c
        → p.close_fds ≡ []
        → nat_beq p.wakeup_flag io_module_stop_flag ≡ false
        → (σ' : ClientHost V) × (wait_loop
              (kernel os)
              (client_members mp os)
              (replicate (suc rounds) (ev ∷ []))
              p
              m
              σ
            ≡ some (false, m, σ'))
          × IsStranded os fd m self object impl (suc rounds) σ σ'
    unfolding wait_loop handle_events close_members
    wait_loop_strands_client n p c σ s closed flag =
        let σ₁ = dropped_on object impl c σ in
        let s₁ =
          dropped_on-HasDropped self object impl c m σ s.unlocked s.apart s.registered s.up s.opened
            s.client in
        let run = handle_event-own self object impl ev r m p c σ s in
        let (σ', rounds, stranded) =
          wait_loop-dropped n (record p { close_fds = [] }) _ σ₁ s₁ refl flag in
        (σ', ground (arith, run, rounds, closed, flag), stranded)
