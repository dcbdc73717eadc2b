-- ===== src/Server/InStep/Guarded/Rounds.antt =====
-- The mutex of the event module's members over the rounds of `IoModule::waitThreadFunc`, of
-- deric_rpc/io/src/io_module.cpp.
use deric_rpc.Prelude.{
  ℕ, zero, suc, ℤ, Bool, not, ◌||◌, List, [], ◌∷◌, ◌≡◌, ◌⊎◌, refl, subst, Option, none, some, arith,
  inl, inr, Option-cases, Bool-cases, lookup, nat_equality, int_equality, int_beq,
}
use deric_rpc.Common.{initialized, IoMemberError, IoMemberErrorAction, epoll_failed}
use deric_rpc.Os.{Kernel}
use deric_rpc.Io.Connection
use deric_rpc.Io.Connection.Preserves.{on_read_available-Keeps, on_io_error-Keeps}
use deric_rpc.Io.Events.{IoModule}
use deric_rpc.Io.Events.Loop.{EpollEvent, Pending, handle_event, handle_events, wait_loop}
use deric_rpc.Io.Server.{TcpIoServer}
use deric_rpc.Serial.{Msgpack}
use deric_rpc.Server.Service.{Service, get_new_client_id}
use deric_rpc.Server.Accept.{on_connect_request}
use deric_rpc.Server.Host.{
  Host, connection_object, write_back, kernel, entries, held, service_lives, read_connection,
  read_server, fail_connection, on_read_available, on_io_error, host_members,
}
use deric_rpc.Server.InStep.{Follows}
use deric_rpc.Server.InStep.Rounds.{
  HasCome, Attended-Running, on_io_error-HasCome, handle_event-Follows, handle_events-Follows,
  wait_loop-next,
}
use deric_rpc.Server.InStep.Guarded.{Descriptors, Harmless, Guarded, moved-Guarded, later-Guarded}
use deric_rpc.Server.InStep.Guarded.Calls.{Guards, entries-Guards, write_back-Guarded}
use deric_rpc.Server.InStep.Guarded.Admission.{on_connect_request-Guarded, fail_server-Guarded}

module _ (mp : Msgpack) {V : Type 0} (os : Kernel V) (InUse : ℤ → V → Type 0)
    (ds : Descriptors os InUse) (s₀ : Service V) (m₀ : IoModule)
    (harmless : Harmless InUse s₀) where
  abbrev GuardsHost : Host V → Type 0
  GuardsHost σ = Guarded InUse σ.service σ.io_module σ.world

  read_server-Guarded :
      (server : Option TcpIoServer) (σ σ' : Host V) (res : ℤ)
      → GuardsHost σ
      → read_server mp os server σ ≡ some (res, σ')
      → GuardsHost σ'
  unfolding read_server
  read_server-Guarded none σ σ' res g run =
      moved-Guarded InUse σ.service σ'.service σ.io_module σ'.io_module σ.world σ'.world g
        (ground (arith, run)) (ground (arith, run)) (ground (arith, run))
  read_server-Guarded (some server) σ σ' res g run =
      let id = get_new_client_id σ.client_index in
      elim (Option-cases (
        on_connect_request os held service_lives id (connection_object id) σ.client_index server
          σ.service σ.io_module σ.world)) [
            | inl gone ↦ absurd (ground (arith, run, gone))
            | inr ((r, s, index, m, w), accepted) ↦
                moved-Guarded InUse s σ'.service m σ'.io_module w σ'.world
                  (on_connect_request-Guarded os InUse ds id σ.client_index index server σ.service s
                    σ.io_module m σ.world w r refl g accepted)
                  (ground (arith, run, accepted)) (ground (arith, run, accepted))
                  (ground (arith, run, accepted))
          ]

  same_host : (σ σ' : Host V) → GuardsHost σ → σ ≡ σ' → GuardsHost σ'
  same_host σ σ' g same = subst GuardsHost same g

  on_read_available-Guarded :
      (object : ℕ) (σ σ' : Host V) (res : ℤ)
      → HasCome mp os s₀ m₀ σ
      → GuardsHost σ
      → on_read_available mp os object σ ≡ some (res, σ')
      → GuardsHost σ'
  unfolding on_read_available read_connection
  on_read_available-Guarded zero σ σ' res h g run =
      read_server-Guarded σ.service.io_server σ σ' res g run
  on_read_available-Guarded (suc id) σ σ' res h g run =
      elim (Option-cases (lookup id σ.service.clients)) [
        | inl gone ↦ same_host σ σ' g (ground (arith, run, gone))
        | inr (e, listed) ↦
            let a = (h.in_step g.free).attended id e listed in
            elim (Option-cases
              (Connection.on_read_available (kernel os) (entries mp os) a.connection σ)) [
                | inl gone ↦ absurd (ground (arith, run, gone, listed, a.connected))
                | inr ((r, c, τ), read) ↦
                    let (running, kept) =
                      on_read_available-Keeps (kernel os) (entries mp os)
                        (Guards mp os InUse ds s₀ m₀ harmless id) id
                        (entries-Guards mp os InUse ds s₀ m₀ harmless id) r a.connection c σ τ
                        a.client (Attended-Running mp os s₀ m₀ id e σ h listed a, g) read in
                    same_host (write_back id c τ) σ'
                      (write_back-Guarded mp os InUse ds s₀ m₀ harmless id c τ kept)
                      (ground (arith, run, read, listed, a.connected))
              ]
      ]

  on_io_error-Guarded :
      (object : ℕ) (error : IoMemberError) (σ σ' : Host V) (action : IoMemberErrorAction)
      → HasCome mp os s₀ m₀ σ
      → GuardsHost σ
      → on_io_error mp os object error σ ≡ some (action, σ')
      → GuardsHost σ'
  unfolding on_io_error fail_connection
  on_io_error-Guarded zero error σ σ' action h g run =
      fail_server-Guarded os InUse ds mp σ.service.io_server action σ σ' refl (h.in_step g.free) g
        run
  on_io_error-Guarded (suc id) epoll_failed σ σ' action h g run =
      elim (Option-cases (lookup id σ.service.clients)) [
        | inl gone ↦ same_host σ σ' g (ground (arith, run, gone))
        | inr (e, listed) ↦
            let a = (h.in_step g.free).attended id e listed in
            elim (Option-cases
              (Connection.on_io_error (kernel os) (entries mp os) epoll_failed a.connection σ)) [
                | inl gone ↦ absurd (ground (arith, run, gone, listed, a.connected))
                | inr ((r, c, τ), failed) ↦
                    let (running, kept) =
                      on_io_error-Keeps (kernel os) (entries mp os)
                        (Guards mp os InUse ds s₀ m₀ harmless id) id
                        (entries-Guards mp os InUse ds s₀ m₀ harmless id) r epoll_failed
                        a.connection c σ τ a.client
                        (Attended-Running mp os s₀ m₀ id e σ h listed a, g) failed in
                    same_host (write_back id c τ) σ'
                      (write_back-Guarded mp os InUse ds s₀ m₀ harmless id c τ kept)
                      (ground (arith, run, failed, listed, a.connected))
              ]
      ]

  pub handle_event-Guarded :
      (ev : EpollEvent) (p p' : Pending) (m m' : IoModule) (σ σ' : Host V)
      → Follows s₀ m₀ σ.service m
      → Guarded InUse σ.service m σ.world
      → handle_event (kernel os) (host_members mp os) ev p m σ ≡ some (p', m', σ')
      → Guarded InUse σ'.service m' σ'.world
  unfolding handle_event
  handle_event-Guarded ev p p' m m' σ σ' h g run =
      let τ : Host V = record σ { io_module = m } in
      elim (Bool-cases (int_beq ev.fd m.wakeup_read_fd)) [
        | inl pipe ↦
            let w = (os.read_byte ev.fd σ.world).1 in
            let ways : (σ.world ≡ σ'.world) ⊎ (w ≡ σ'.world) = ground (arith, run, pipe) in
            let service : σ.service ≡ σ'.service = ground (arith, run, pipe) in
            let module_ : m ≡ m' = ground (arith, run, pipe) in
            elim ways [
              | inl same ↦
                  moved-Guarded InUse σ.service σ'.service m m' σ.world σ'.world g service module_
                    same
              | inr done ↦
                  moved-Guarded InUse σ.service σ'.service m m' w σ'.world
                    (later-Guarded InUse σ.service m σ.world w
                      (λ d u. ds.read_byte ev.fd d σ.world u) g)
                    service module_ done
            ]
        | inr apart ↦ elim (Option-cases (lookup ev.fd m.io_members)) [
          | inl missing ↦
              moved-Guarded InUse σ.service σ'.service m m' σ.world σ'.world g
                (ground (arith, run, apart, g.free, missing))
                (ground (arith, run, apart, g.free, missing))
                (ground (arith, run, apart, g.free, missing))
          | inr (object, member) ↦ elim (Bool-cases (ev.error || ev.hang_up || not ev.readable)) [
            | inl bad ↦ elim (Option-cases (on_io_error mp os object epoll_failed τ)) [
              | inl gone ↦ absurd (ground (arith, run, apart, g.free, member, bad, gone))
              | inr ((action, τ'), failed) ↦
                  let (kept, come) =
                    on_io_error-HasCome mp os s₀ m₀ object epoll_failed τ τ' action g.free h
                      failed in
                  moved-Guarded InUse τ'.service σ'.service τ'.io_module m' τ'.world σ'.world
                    (on_io_error-Guarded object epoll_failed τ τ' action h g failed)
                    (ground (arith, run, apart, g.free, member, bad, failed, kept))
                    (ground (arith, run, apart, g.free, member, bad, failed, kept))
                    (ground (arith, run, apart, g.free, member, bad, failed, kept))
            ]
            | inr good ↦ elim (Option-cases (on_read_available mp os object τ)) [
              | inl gone ↦ absurd (ground (arith, run, apart, g.free, member, good, gone))
              | inr ((res, τ'), read) ↦
                  moved-Guarded InUse τ'.service σ'.service τ'.io_module m' τ'.world σ'.world
                    (on_read_available-Guarded object τ τ' res h g read)
                    (ground (arith, run, apart, g.free, member, good, read))
                    (ground (arith, run, apart, g.free, member, good, read))
                    (ground (arith, run, apart, g.free, member, good, read))
            ]
          ]
        ]
      ]

  pub handle_events-Guarded :
      (evs : List EpollEvent) (p p' : Pending) (m m' : IoModule) (σ σ' : Host V)
      → p.close_fds ≡ []
      → Follows s₀ m₀ σ.service m
      → Guarded InUse σ.service m σ.world
      → handle_events (kernel os) (host_members mp os) evs p m σ ≡ some (p', m', σ')
      → Guarded InUse σ'.service m' σ'.world
  unfolding handle_events
  handle_events-Guarded [] p p' m m' σ σ' empty h g run =
      moved-Guarded InUse σ.service σ'.service m m' σ.world σ'.world g (ground (arith, run))
        (ground (arith, run)) (ground (arith, run))
  handle_events-Guarded (ev ∷ evs) p p' m m' σ σ' empty h g run =
      elim (Option-cases (handle_event (kernel os) (host_members mp os) ev p m σ)) [
        | inl gone ↦ absurd (ground (arith, run, gone))
        | inr ((p₁, m₁, τ), first) ↦
            let (empty₁, h₁) = handle_event-Follows mp os s₀ m₀ ev p p₁ m m₁ σ τ empty h first in
            handle_events-Guarded evs p₁ p' m₁ m' τ σ' empty₁ h₁
              (handle_event-Guarded ev p p₁ m m₁ σ τ h g first) (ground (arith, run, first))
      ]

  pub wait_loop-Guarded :
      (rounds : List (List EpollEvent)) (p : Pending) (m m' : IoModule) (σ σ' : Host V)
      (ended : Bool)
      → p.close_fds ≡ []
      → Follows s₀ m₀ σ.service m
      → Guarded InUse σ.service m σ.world
      → wait_loop (kernel os) (host_members mp os) rounds p m σ ≡ some (ended, m', σ')
      → Guarded InUse σ'.service m' σ'.world
  unfolding wait_loop
  wait_loop-Guarded [] p m m' σ σ' ended empty h g run =
      moved-Guarded InUse σ.service σ'.service m m' σ.world σ'.world g (ground (arith, run))
        (ground (arith, run)) (ground (arith, run))
  wait_loop-Guarded (evs ∷ rounds) p m m' σ σ' ended empty h g run =
      elim (Option-cases (handle_events (kernel os) (host_members mp os) evs p m σ)) [
        | inl gone ↦ absurd (ground (arith, run, gone))
        | inr ((p₁, m₁, τ), handled) ↦
            let (empty₁, h₁) =
              handle_events-Follows mp os s₀ m₀ evs p p₁ m m₁ σ τ empty h handled in
            let g₁ = handle_events-Guarded evs p p₁ m m₁ σ τ empty h g handled in
            elim (wait_loop-next mp os s₀ m₀ evs rounds p p₁ m m₁ m' σ τ σ' ended handled empty₁
              run) [
                | inl (stopped, same) ↦
                    moved-Guarded InUse τ.service σ'.service (record m₁ { state = initialized }) m'
                      τ.world σ'.world
                      (record { free = g₁.free; in_use = g₁.in_use; server = g₁.server })
                      (ground (arith, same)) stopped (ground (arith, same))
                | inr on ↦
                    wait_loop-Guarded rounds (record p₁ { close_fds = [] }) m₁ m' τ σ' ended refl h₁
                      g₁ on
              ]
      ]
