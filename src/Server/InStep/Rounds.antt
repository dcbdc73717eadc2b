-- ===== src/Server/InStep/Rounds.antt =====
-- The clients of a service and the members of the event module over the rounds of
-- `IoModule::waitThreadFunc`, of deric_rpc/io/src/io_module.cpp.
use deric_rpc.Prelude.{
  ℕ, zero, suc, ℤ, Bool, false, not, ◌||◌, is_neg, List, [], ◌∷◌, ◌≡◌, ◌⊎◌, refl, subst, Option,
  none, some, arith, inl, inr, Option-cases, Bool-cases, lookup, nat_equality, int_equality,
  int_beq,
}
use deric_rpc.Common.{initialized, IoMemberError, IoMemberErrorAction, keep, epoll_failed}
use deric_rpc.Os.{Kernel}
use deric_rpc.Io.Connection
use deric_rpc.Io.Connection.Preserves.{on_read_available-Keeps, on_io_error-Keeps, on_io_error-keep}
use deric_rpc.Io.Events.{IoModule}
use deric_rpc.Io.Events.Loop.{
  EpollEvent, Pending, handle_event, handle_events, close_members, wait_loop,
}
use deric_rpc.Io.Server.{TcpIoServer}
use deric_rpc.Serial.{Msgpack}
use deric_rpc.Server.Service
use deric_rpc.Server.Service.{Service, get_new_client_id}
use deric_rpc.Server.Accept.{on_connect_request}
use deric_rpc.Server.Client.{ClientEntry}
use deric_rpc.Server.Host.{
  Host, connection_object, write_back, kernel, entries, held, service_lives, read_connection,
  read_server, fail_connection, on_read_available, on_io_error, host_members,
}
use deric_rpc.Server.InStep.{Attended, InStep, Follows, moved-Follows, stop-InStep}
use deric_rpc.Server.InStep.Calls.{Running, entries-Running, write_back-Follows}
use deric_rpc.Server.InStep.Admission.{on_connect_request-Follows}
use deric_rpc.Server.InStep.Listening.{fail_server-Follows, start-Follows}

module _ (mp : Msgpack) {V : Type 0} (os : Kernel V) (s₀ : Service V) (m₀ : IoModule) where
  -- The process has come from the service `s₀` with the module `m₀`.
  abbrev pub HasCome : Host V → Type 0
  HasCome σ = Follows s₀ m₀ σ.service σ.io_module

  read_server-HasCome :
      (server : Option TcpIoServer) (σ σ' : Host V) (res : ℤ)
      → σ.io_module.members_locked ≡ false
      → HasCome σ
      → read_server mp os server σ ≡ some (res, σ')
      → HasCome σ'
  unfolding read_server
  read_server-HasCome none σ σ' res free h run =
      moved-Follows s₀ m₀ σ.service σ'.service σ.io_module σ'.io_module h (ground (arith, run))
        (ground (arith, run))
  read_server-HasCome (some server) σ σ' res free h run =
      let id = get_new_client_id σ.client_index in
      elim (Option-cases (
        on_connect_request os held service_lives id (connection_object id) σ.client_index server
          σ.service σ.io_module σ.world)) [
            | inl gone ↦ absurd (ground (arith, run, gone))
            | inr ((r, s, index, m, w), accepted) ↦
                moved-Follows s₀ m₀ s σ'.service m σ'.io_module
                  (on_connect_request-Follows os s₀ m₀ id σ.client_index index server σ.service s
                    σ.io_module m σ.world w r refl free h accepted)
                  (ground (arith, run, accepted)) (ground (arith, run, accepted))
          ]

  pub Attended-Running :
      (id : ℕ) (e : ClientEntry) (σ : Host V)
      → HasCome σ
      → lookup id σ.service.clients ≡ some e
      → (a : Attended σ.io_module id e) → Running s₀ m₀ id a.connection σ
  Attended-Running id e σ h listed a = record {
    client = a.client;
    follows = h;
    is_open = λ e' free found. a.is_open;
  }

  moved-HasCome : (σ σ' : Host V) → HasCome σ → σ ≡ σ' → HasCome σ'
  moved-HasCome σ σ' h same = subst HasCome same h

  pub on_read_available-HasCome :
      (object : ℕ) (σ σ' : Host V) (res : ℤ)
      → σ.io_module.members_locked ≡ false
      → HasCome σ
      → on_read_available mp os object σ ≡ some (res, σ')
      → HasCome σ'
  unfolding on_read_available read_connection
  on_read_available-HasCome zero σ σ' res free h run =
      read_server-HasCome σ.service.io_server σ σ' res free h run
  on_read_available-HasCome (suc id) σ σ' res free h run =
      elim (Option-cases (lookup id σ.service.clients)) [
        | inl gone ↦ moved-HasCome σ σ' h (ground (arith, run, gone))
        | inr (e, listed) ↦
            let a = (h.in_step free).attended id e listed in
            elim (Option-cases
              (Connection.on_read_available (kernel os) (entries mp os) a.connection σ)) [
                | inl gone ↦ absurd (ground (arith, run, gone, listed, a.connected))
                | inr ((r, c, τ), read) ↦
                    moved-HasCome (write_back id c τ) σ'
                      (write_back-Follows s₀ m₀ id c τ (
                        on_read_available-Keeps (kernel os) (entries mp os) (Running s₀ m₀ id) id
                          (entries-Running s₀ m₀ id mp os) r a.connection c σ τ a.client
                          (Attended-Running id e σ h listed a) read))
                      (ground (arith, run, read, listed, a.connected))
              ]
      ]

  -- No handler asks the loop to close a descriptor.
  pub on_io_error-HasCome :
      (object : ℕ) (error : IoMemberError) (σ σ' : Host V) (action : IoMemberErrorAction)
      → σ.io_module.members_locked ≡ false
      → HasCome σ
      → on_io_error mp os object error σ ≡ some (action, σ')
      → (action ≡ keep) × HasCome σ'
  unfolding on_io_error fail_connection
  on_io_error-HasCome zero error σ σ' action free h run =
      fail_server-Follows os s₀ m₀ mp σ.service.io_server action σ σ' refl free h run
  on_io_error-HasCome (suc id) epoll_failed σ σ' action free h run =
      elim (Option-cases (lookup id σ.service.clients)) [
        | inl gone ↦ (ground (arith, run, gone), moved-HasCome σ σ' h (ground (arith, run, gone)))
        | inr (e, listed) ↦
            let a = (h.in_step free).attended id e listed in
            elim (Option-cases
              (Connection.on_io_error (kernel os) (entries mp os) epoll_failed a.connection σ)) [
                | inl gone ↦ absurd (ground (arith, run, gone, listed, a.connected))
                | inr ((r, c, τ), failed) ↦ (
                  ground (
                    arith,
                    run,
                    failed,
                    listed,
                    a.connected,
                    on_io_error-keep (kernel os) (entries mp os) r epoll_failed a.connection c σ τ
                        failed,
                  ),
                  moved-HasCome (write_back id c τ) σ'
                      (write_back-Follows s₀ m₀ id c τ (
                        on_io_error-Keeps (kernel os) (entries mp os) (Running s₀ m₀ id) id
                          (entries-Running s₀ m₀ id mp os) r epoll_failed a.connection c σ τ
                          a.client (Attended-Running id e σ h listed a) failed))
                      (ground (arith, run, failed, listed, a.connected)),
                )
              ]
      ]

  pub handle_event-Follows :
      (ev : EpollEvent) (p p' : Pending) (m m' : IoModule) (σ σ' : Host V)
      → p.close_fds ≡ []
      → Follows s₀ m₀ σ.service m
      → handle_event (kernel os) (host_members mp os) ev p m σ ≡ some (p', m', σ')
      → (p'.close_fds ≡ []) × Follows s₀ m₀ σ'.service m'
  unfolding handle_event
  handle_event-Follows ev p p' m m' σ σ' empty h run =
      let τ : Host V = record σ { io_module = m } in
      elim (Bool-cases (int_beq ev.fd m.wakeup_read_fd)) [
        | inl pipe ↦ (
          ground (arith, run, pipe, empty),
          moved-Follows s₀ m₀ σ.service σ'.service m m' h (ground (arith, run, pipe))
              (ground (arith, run, pipe)),
        )
        | inr apart ↦ elim (Bool-cases m.members_locked) [
          | inl locked ↦ absurd (ground (arith, run, apart, locked))
          | inr free ↦ elim (Option-cases (lookup ev.fd m.io_members)) [
            | inl missing ↦ (
              ground (arith, run, apart, free, missing, empty),
              moved-Follows s₀ m₀ σ.service σ'.service m m' h
                  (ground (arith, run, apart, free, missing))
                  (ground (arith, run, apart, free, missing)),
            )
            | inr (object, member) ↦ elim (Bool-cases (ev.error || ev.hang_up || not ev.readable)) [
              | inl bad ↦ elim (Option-cases (on_io_error mp os object epoll_failed τ)) [
                | inl gone ↦ absurd (ground (arith, run, apart, free, member, bad, gone))
                | inr ((action, τ'), failed) ↦
                    let (kept, come) =
                      on_io_error-HasCome object epoll_failed τ τ' action free h failed in
                    (
                      ground (arith, run, apart, free, member, bad, failed, kept, empty),
                      moved-Follows s₀ m₀ τ'.service σ'.service τ'.io_module m' come
                          (ground (arith, run, apart, free, member, bad, failed))
                          (ground (arith, run, apart, free, member, bad, failed)),
                    )
              ]
              | inr good ↦ elim (Option-cases (on_read_available mp os object τ)) [
                | inl gone ↦ absurd (ground (arith, run, apart, free, member, good, gone))
                | inr ((res, τ'), read) ↦ (
                  ground (arith, run, apart, free, member, good, read, empty),
                  moved-Follows s₀ m₀ τ'.service σ'.service τ'.io_module m'
                      (on_read_available-HasCome object τ τ' res free h read)
                      (ground (arith, run, apart, free, member, good, read))
                      (ground (arith, run, apart, free, member, good, read)),
                )
              ]
            ]
          ]
        ]
      ]

  pub handle_events-Follows :
      (evs : List EpollEvent) (p p' : Pending) (m m' : IoModule) (σ σ' : Host V)
      → p.close_fds ≡ []
      → Follows s₀ m₀ σ.service m
      → handle_events (kernel os) (host_members mp os) evs p m σ ≡ some (p', m', σ')
      → (p'.close_fds ≡ []) × Follows s₀ m₀ σ'.service m'
  unfolding handle_events
  handle_events-Follows [] p p' m m' σ σ' empty h run = (
    ground (arith, run, empty),
    moved-Follows s₀ m₀ σ.service σ'.service m m' h (ground (arith, run)) (ground (arith, run)),
  )
  handle_events-Follows (ev ∷ evs) p p' m m' σ σ' empty h run =
      elim (Option-cases (handle_event (kernel os) (host_members mp os) ev p m σ)) [
        | inl gone ↦ absurd (ground (arith, run, gone))
        | inr ((p₁, m₁, τ), first) ↦
            let (empty₁, h₁) = handle_event-Follows ev p p₁ m m₁ σ τ empty h first in
            handle_events-Follows evs p₁ p' m₁ m' τ σ' empty₁ h₁ (ground (arith, run, first))
      ]

  -- The loop behind a round that has asked for no descriptor to be closed.
  pub wait_loop-next :
      (evs : List EpollEvent) (rounds : List (List EpollEvent)) (p p₁ : Pending)
      (m m₁ m' : IoModule) (σ τ σ' : Host V) (ended : Bool)
      → handle_events (kernel os) (host_members mp os) evs p m σ ≡ some (p₁, m₁, τ)
      → p₁.close_fds ≡ []
      → wait_loop (kernel os) (host_members mp os) (evs ∷ rounds) p m σ ≡ some (ended, m', σ')
      → ((record m₁ { state = initialized } ≡ m') × (τ ≡ σ'))
        ⊎ (wait_loop (kernel os) (host_members mp os) rounds (record p₁ { close_fds = [] }) m₁ τ
            ≡ some (ended, m', σ'))
  unfolding wait_loop close_members
  wait_loop-next evs rounds p p₁ m m₁ m' σ τ σ' ended handled empty run =
      ground (arith, run, handled, empty)

  -- What a service and its event module have in common is kept by any rounds of the event loop.
  pub wait_loop-Follows :
      (rounds : List (List EpollEvent)) (p : Pending) (m m' : IoModule) (σ σ' : Host V)
      (ended : Bool)
      → p.close_fds ≡ []
      → Follows s₀ m₀ σ.service m
      → wait_loop (kernel os) (host_members mp os) rounds p m σ ≡ some (ended, m', σ')
      → Follows s₀ m₀ σ'.service m'
  unfolding wait_loop
  wait_loop-Follows [] p m m' σ σ' ended empty h run =
      moved-Follows s₀ m₀ σ.service σ'.service m m' h (ground (arith, run)) (ground (arith, run))
  wait_loop-Follows (evs ∷ rounds) p m m' σ σ' ended empty h run =
      elim (Option-cases (handle_events (kernel os) (host_members mp os) evs p m σ)) [
        | inl gone ↦ absurd (ground (arith, run, gone))
        | inr ((p₁, m₁, τ), handled) ↦
            let (empty₁, h₁) = handle_events-Follows evs p p₁ m m₁ σ τ empty h handled in
            elim (wait_loop-next evs rounds p p₁ m m₁ m' σ τ σ' ended handled empty₁ run) [
              | inl (stopped, same) ↦
                  moved-Follows s₀ m₀ τ.service σ'.service (record m₁ { state = initialized }) m'
                    (record {
                      alike = h₁.alike;
                      pipe = h₁.pipe;
                      in_step = λ free. stop-InStep τ.service m₁ (h₁.in_step free);
                    })
                    (ground (arith, same)) stopped
              | inr on ↦
                  wait_loop-Follows rounds (record p₁ { close_fds = [] }) m₁ m' τ σ' ended refl h₁
                    on
            ]
      ]

module _ (mp : Msgpack) {V : Type 0} (os : Kernel V) where
  -- The event loop of a service that has just started without clients, over any rounds, whatever epoll
  -- reports and whatever comes of the system calls, of the packing and of the service's functions:
  -- clients connect, send requests, fail and close meanwhile. Behind the rounds each client in the
  -- service's table has its own id and a started connection that points back to it, and the
  -- event module has that connection under its descriptor; the server's entry, where it is still
  -- there, is the member under its own. That holds if the mutex of the members has not stayed
  -- locked, and if the loop had no descriptor to close at its start.
  pub wait_loop-InStep :
      (s : Service V) (m m₀ : IoModule) (w : V) (res : ℤ) (rounds : List (List EpollEvent))
      (p : Pending) (m' : IoModule) (σ σ' : Host V) (ended : Bool)
      → s.clients ≡ []
      → Service.start os zero s m w ≡ some (res, σ.service, m₀, σ.world)
      → is_neg res ≡ false
      → p.close_fds ≡ []
      → wait_loop (kernel os) (host_members mp os) rounds p m₀ σ ≡ some (ended, m', σ')
      → m'.members_locked ≡ false
      → InStep σ'.service m'
  wait_loop-InStep s m m₀ w res rounds p m' σ σ' ended none_yet run fine empty rounds_run free =
      (wait_loop-Follows mp os σ.service m₀ rounds p m₀ m' σ σ' ended empty
          (start-Follows os s σ.service m m₀ w σ.world res none_yet run fine) rounds_run).in_step
        free
