-- ===== src/Server/Linked/Rounds.antt =====
-- Clients and connections over the rounds of `IoModule::waitThreadFunc`, of
-- deric_rpc/io/src/io_module.cpp.
use deric_rpc.Prelude.{
  ℕ, zero, suc, ℤ, Bool, not, ◌||◌, List, [], ◌∷◌, ◌≡◌, subst, Option, none, some, arith, inl, inr,
  Option-cases, Bool-cases, lookup, erase, ◌∙◌, nat_equality, int_equality, int_beq, nat_beq,
}
use deric_rpc.Common.{IoMemberError, IoMemberErrorAction, epoll_failed}
use deric_rpc.Os.{Kernel, epoll_del}
use deric_rpc.Io.Connection
use deric_rpc.Io.Connection.Preserves.{on_read_available-Keeps, on_io_error-Keeps}
use deric_rpc.Io.Events.{IoModule, modify_epoll_event, io_module_stop_flag}
use deric_rpc.Io.Events.Loop.{
  EpollEvent, Pending, handle_event, handle_events, close_members, wait_loop,
}
use deric_rpc.Io.Server.{TcpIoServer}
use deric_rpc.Serial.{Msgpack}
use deric_rpc.Server.Service.{get_new_client_id}
use deric_rpc.Server.Accept.{on_connect_request}
use deric_rpc.Server.Host.{
  Host, connection_object, write_back, kernel, entries, held, service_lives, read_connection,
  read_server, fail_server, fail_connection, on_read_available, on_io_error, host_members,
}
use deric_rpc.Server.Linked.{IsLinked, Ours, entries-Ours, write_back-IsLinked}
use deric_rpc.Server.Linked.Admission.{on_connect_request-IsLinked}

module _ (mp : Msgpack) {V : Type 0} (os : Kernel V) where
  read_server-IsLinked :
      (server : Option TcpIoServer) (σ σ' : Host V) (res : ℤ)
      → IsLinked σ.service
      → read_server mp os server σ ≡ some (res, σ')
      → IsLinked σ'.service
  unfolding read_server
  read_server-IsLinked none σ σ' res h run =
      let same : σ.service ≡ σ'.service = ground (arith, run) in subst IsLinked same h
  read_server-IsLinked (some server) σ σ' res h run =
      let id = get_new_client_id σ.client_index in
      elim (Option-cases (
        on_connect_request os held service_lives id (connection_object id) σ.client_index server
          σ.service σ.io_module σ.world)) [
            | inl gone ↦ absurd (ground (arith, run, gone))
            | inr ((r, s, index, m, w), accepted) ↦
                let same : s ≡ σ'.service = ground (arith, run, accepted) in
                subst IsLinked same (
                  on_connect_request-IsLinked os held service_lives σ.client_index index server
                    σ.service s σ.io_module m σ.world w r h accepted)
          ]

  on_read_available-IsLinked :
      (object : ℕ) (σ σ' : Host V) (res : ℤ)
      → IsLinked σ.service
      → on_read_available mp os object σ ≡ some (res, σ')
      → IsLinked σ'.service
  unfolding on_read_available read_connection
  on_read_available-IsLinked zero σ σ' res h run =
      read_server-IsLinked σ.service.io_server σ σ' res h run
  on_read_available-IsLinked (suc id) σ σ' res h run =
      elim (Option-cases (lookup id σ.service.clients)) [
        | inl gone ↦
            let same : σ.service ≡ σ'.service = ground (arith, run, gone) in subst IsLinked same h
        | inr (e, listed) ↦
            let linked = h id e listed in
            let c = linked.connection in
            elim (Option-cases (Connection.on_read_available (kernel os) (entries mp os) c σ)) [
              | inl gone ↦ absurd (ground (arith, run, gone, listed, linked.connected))
              | inr ((r, c', τ), read) ↦
                  let same : write_back id c' τ ≡ σ' =
                    ground (arith, run, read, listed, linked.connected) in
                  subst (λ τ. IsLinked τ.service) same
                    (write_back-IsLinked mp os id c' τ (
                      on_read_available-Keeps (kernel os) (entries mp os) (Ours mp os id) id
                        (entries-Ours mp os id) r c c' σ τ linked.client (h, linked.client) read))
            ]
      ]

  on_io_error-IsLinked :
      (object : ℕ) (error : IoMemberError) (σ σ' : Host V) (action : IoMemberErrorAction)
      → IsLinked σ.service
      → on_io_error mp os object error σ ≡ some (action, σ')
      → IsLinked σ'.service
  unfolding on_io_error fail_server fail_connection
  on_io_error-IsLinked zero error σ σ' action h run =
      let same : σ.service.clients ≡ σ'.service.clients = ground (arith, run) in
      λ id e found. h id e (ground (arith, same, found))
  on_io_error-IsLinked (suc id) error σ σ' action h run =
      elim (Option-cases (lookup id σ.service.clients)) [
        | inl gone ↦
            let same : σ.service ≡ σ'.service = ground (arith, run, gone) in subst IsLinked same h
        | inr (e, listed) ↦
            let linked = h id e listed in
            let c = linked.connection in
            elim (Option-cases (Connection.on_io_error (kernel os) (entries mp os) error c σ)) [
              | inl gone ↦ absurd (ground (arith, run, gone, listed, linked.connected))
              | inr ((r, c', τ), failed) ↦
                  let same : write_back id c' τ ≡ σ' =
                    ground (arith, run, failed, listed, linked.connected) in
                  subst (λ τ. IsLinked τ.service) same
                    (write_back-IsLinked mp os id c' τ (
                      on_io_error-Keeps (kernel os) (entries mp os) (Ours mp os id) id
                        (entries-Ours mp os id) r error c c' σ τ linked.client (h, linked.client)
                        failed))
            ]
      ]

  handle_event-IsLinked :
      (ev : EpollEvent) (p p' : Pending) (m m' : IoModule) (σ σ' : Host V)
      → IsLinked σ.service
      → handle_event (kernel os) (host_members mp os) ev p m σ ≡ some (p', m', σ')
      → IsLinked σ'.service
  unfolding handle_event
  handle_event-IsLinked ev p p' m m' σ σ' h run =
      let τ : Host V = record σ { io_module = m } in
      elim (Bool-cases (int_beq ev.fd m.wakeup_read_fd)) [
        | inl pipe ↦
            let same : σ.service ≡ σ'.service = ground (arith, run, pipe) in subst IsLinked same h
        | inr apart ↦ elim (Option-cases (lookup ev.fd m.io_members)) [
          | inl missing ↦
              let same : σ.service ≡ σ'.service = ground (arith, run, apart, missing) in
              subst IsLinked same h
          | inr (object, member) ↦ elim (Bool-cases (ev.error || ev.hang_up || not ev.readable)) [
            | inl bad ↦ elim (Option-cases (on_io_error mp os object epoll_failed τ)) [
              | inl gone ↦ absurd (ground (arith, run, apart, member, bad, gone))
              | inr ((action, τ'), failed) ↦
                  let same : τ' ≡ σ' = ground (arith, run, apart, member, bad, failed) in
                  subst (λ τ. IsLinked τ.service) same
                    (on_io_error-IsLinked object epoll_failed τ τ' action h failed)
            ]
            | inr good ↦ elim (Option-cases (on_read_available mp os object τ)) [
              | inl gone ↦ absurd (ground (arith, run, apart, member, good, gone))
              | inr ((res, τ'), read) ↦
                  let same : τ' ≡ σ' = ground (arith, run, apart, member, good, read) in
                  subst (λ τ. IsLinked τ.service) same
                    (on_read_available-IsLinked object τ τ' res h read)
            ]
          ]
        ]
      ]

  handle_events-IsLinked :
      (evs : List EpollEvent) (p p' : Pending) (m m' : IoModule) (σ σ' : Host V)
      → IsLinked σ.service
      → handle_events (kernel os) (host_members mp os) evs p m σ ≡ some (p', m', σ')
      → IsLinked σ'.service
  unfolding handle_events
  handle_events-IsLinked [] p p' m m' σ σ' h run =
      let same : σ.service ≡ σ'.service = ground (arith, run) in subst IsLinked same h
  handle_events-IsLinked (ev ∷ evs) p p' m m' σ σ' h run =
      elim (Option-cases (handle_event (kernel os) (host_members mp os) ev p m σ)) [
        | inl gone ↦ absurd (ground (arith, run, gone))
        | inr ((p₁, m₁, τ), first) ↦
            handle_events-IsLinked evs p₁ p' m₁ m' τ σ'
              (handle_event-IsLinked ev p p₁ m m₁ σ τ h first) (ground (arith, run, first))
      ]

  close_members-service :
      (fds : List ℤ) (m m' : IoModule) (σ σ' : Host V)
      → close_members (kernel os) (host_members mp os) fds m σ ≡ some (m', σ')
      → σ.service ≡ σ'.service
  unfolding close_members modify_epoll_event
  close_members-service [] m m' σ σ' run = ground (arith, run)
  close_members-service (fd ∷ fds) m m' σ σ' run =
      let τ = (modify_epoll_event (kernel os) epoll_del fd m σ).1 in
      let same : σ.service ≡ τ.service = ground arith in
      same
      ∙ close_members-service fds (record m { io_members = erase fd m.io_members }) m' τ σ'
          (ground (arith, run))

  -- Every client in the table of the service has its own id and a connection, whose number in the
  -- event module is the client's and which points back to the client: this holds behind any
  -- rounds of the event loop at whose start it holds, whatever epoll reports and whatever comes of
  -- the system calls, of the packing and of the service's functions; clients connect, send
  -- requests, fail and close meanwhile.
  pub wait_loop-IsLinked :
      (rounds : List (List EpollEvent)) (p : Pending) (m m' : IoModule) (σ σ' : Host V)
      (ended : Bool)
      → IsLinked σ.service
      → wait_loop (kernel os) (host_members mp os) rounds p m σ ≡ some (ended, m', σ')
      → IsLinked σ'.service
  unfolding wait_loop
  wait_loop-IsLinked [] p m m' σ σ' ended h run =
      let same : σ.service ≡ σ'.service = ground (arith, run) in subst IsLinked same h
  wait_loop-IsLinked (evs ∷ rounds) p m m' σ σ' ended h run =
      elim (Option-cases (handle_events (kernel os) (host_members mp os) evs p m σ)) [
        | inl gone ↦ absurd (ground (arith, run, gone))
        | inr ((p₁, m₁, τ), handled) ↦
            let h₁ = handle_events-IsLinked evs p p₁ m m₁ σ τ h handled in
            elim (Option-cases (close_members (kernel os) (host_members mp os) p₁.close_fds m₁ τ)) [
              | inl gone ↦ absurd (ground (arith, run, handled, gone))
              | inr ((m₂, τ₂), closed) ↦
                  let h₂ =
                    subst IsLinked (close_members-service p₁.close_fds m₁ m₂ τ τ₂ closed) h₁ in
                  elim (Bool-cases (nat_beq p₁.wakeup_flag io_module_stop_flag)) [
                    | inl stops ↦
                        let same : τ₂.service ≡ σ'.service =
                          ground (arith, run, handled, closed, stops) in
                        subst IsLinked same h₂
                    | inr goes_on ↦
                        wait_loop-IsLinked rounds (record p₁ { close_fds = [] }) m₂ m' τ₂ σ' ended
                          h₂ (ground (arith, run, handled, closed, goes_on))
                  ]
            ]
      ]
