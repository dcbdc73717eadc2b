-- ===== src/Server/InStep/Guarded/Start.antt =====
-- The start of a service, and the rounds of the event loop behind it: `RpcService::start` of
-- deric_rpc/rpc/server/src/rpc_service.cpp, `TcpIoServer::start` of
-- deric_rpc/io/src/tcp_io_server.cpp and `IoModule::waitThreadFunc`.
use deric_rpc.Prelude.{
  ℕ, ◌^◌, ◌<◌, zero, ℤ, false, Bool, List, [], ◌≡◌, subst, some, arith, inl, inr, Option-cases,
  lookup, insert, contains, lookup-insert, int_beq_iff, int_equality, nat_equality, is_neg,
}
use deric_rpc.Os.{Kernel, epoll_add}
use deric_rpc.Io.Events.{IoModule, add_io_member, modify_epoll_event, wakeup_module}
use deric_rpc.Io.Events.Loop.{EpollEvent, Pending, wait_loop}
use deric_rpc.Io.Server.{TcpIoServer, entry_member}
use deric_rpc.Io.Server
use deric_rpc.Serial.{Msgpack}
use deric_rpc.Server.Service.{Service}
use deric_rpc.Server.Service
use deric_rpc.Server.Host.{Host, kernel, host_members}
use deric_rpc.Server.InStep.{InStep}
use deric_rpc.Server.InStep.Rounds.{wait_loop-Follows}
use deric_rpc.Server.InStep.Listening.{start-Follows}
use deric_rpc.Server.InStep.Guarded.{Descriptors, Harmless, Guarded}
use deric_rpc.Server.InStep.Guarded.Calls.{modify_epoll_event-InUse}
use deric_rpc.Server.InStep.Guarded.Admission.{wakeup_module-InUse}
use deric_rpc.Server.InStep.Guarded.Rounds.{wait_loop-Guarded}
use deric_rpc.Server.InStep.Returning.{Brief}
use deric_rpc.Server.InStep.Returning.Rounds.{wait_loop_total}
use deric_rpc.Io.Connection.Safety.{GivesAtMost}

module _ {V : Type 0} (os : Kernel V) where
  -- The server is registered, and the module has its member only.
  start-world :
      (t t' : TcpIoServer) (m m' : IoModule) (w w' : V) (res : ℤ)
      → m.members_locked ≡ false
      → m.io_members ≡ []
      → is_neg res ≡ false
      → Server.start os zero t m w ≡ some (res, t', m', w')
      → let (fd, w₁) = os.socket w in
        let w₂ = (os.listen fd t.max_connection_number (os.bind fd t.ip t.port w₁).1).1 in
        let m₁ = record m { io_members = insert fd zero [] } in
        (is_neg fd ≡ false)
        × (t'.socket_fd ≡ fd)
        × (t'.io_entry ≡ some (entry_member zero fd))
        × (m₁ ≡ m')
        × (wakeup_module os m₁ (modify_epoll_event os epoll_add fd m₁ w₂).1 ≡ w')
  unfolding Server.start add_io_member contains
  start-world t t' m m' w w' res free empty fine run = ground (arith, run, free, empty, fine)

module _ {V : Type 0} (os : Kernel V) (InUse : ℤ → V → Type 0) (ds : Descriptors os InUse) where
  server_start-Guarded :
      (s : Service V) (t t' : TcpIoServer) (m m' : IoModule) (w w' : V) (res : ℤ)
      → m.members_locked ≡ false
      → m.io_members ≡ []
      → is_neg res ≡ false
      → s.io_server ≡ some t'
      → Server.start os zero t m w ≡ some (res, t', m', w')
      → Guarded InUse s m' w'
  unfolding lookup
  server_start-Guarded s t t' m m' w w' res free empty fine has run =
      let (opened, socket, entry, added, world) =
        start-world os t t' m m' w w' res free empty fine run in
      let (fd, w₁) = os.socket w in
      let m₁ = record m { io_members = insert fd zero [] } in
      let w₂ = (os.bind fd t.ip t.port w₁).1 in
      let w₃ = (os.listen fd t.max_connection_number w₂).1 in
      let w₄ = (modify_epoll_event os epoll_add fd m₁ w₃).1 in
      let used : InUse fd w' = subst (InUse fd) world (
        wakeup_module-InUse os InUse ds fd m₁ w₄ (
          modify_epoll_event-InUse os InUse ds epoll_add fd fd m₁ w₃ (
            ds.listen fd t.max_connection_number fd w₂
              (ds.bind fd t.ip t.port fd w₁ (ds.socket_opens w opened))))) in
      record {
        free = ground (arith, free, added);
        in_use = λ d object found.
            let same : fd ≡ d =
              ground (arith, found, added, lookup-insert fd d zero [], int_beq_iff fd d) in
            subst (λ x. InUse x w') same used;
        server = λ t₁ now up. (
          entry_member zero fd,
          ground (arith, now, has, entry),
          ground (arith, now, has, socket),
        );
      }

  pub start-Guarded :
      (s s' : Service V) (m m' : IoModule) (w w' : V) (res : ℤ)
      → m.members_locked ≡ false
      → m.io_members ≡ []
      → Service.start os zero s m w ≡ some (res, s', m', w')
      → is_neg res ≡ false
      → Guarded InUse s' m' w'
  unfolding Service.start
  start-Guarded s s' m m' w w' res free empty run fine = elim (Option-cases s.io_server) [
    | inl bare ↦ absurd (ground (arith, run, fine, bare))
    | inr (server, there) ↦ elim (Option-cases (Server.start os zero server m w)) [
      | inl gone ↦ absurd (ground (arith, run, fine, there, gone))
      | inr ((r, t₁, m₁, w₁), began) ↦
          let ends : (r ≡ res) × (s'.io_server ≡ some t₁) × (m₁ ≡ m') × (w₁ ≡ w') =
            ground (arith, run, fine, there, began) in
          server_start-Guarded s' server t₁ m m' w w' res free empty fine (ground (arith, ends))
            (ground (arith, began, ends))
    ]
  ]

module _ (mp : Msgpack) {V : Type 0} (os : Kernel V) (InUse : ℤ → V → Type 0) where
  -- A service without clients has started on a module without members, with the mutex free. Any
  -- rounds of the event loop, whatever epoll reports, come to a result: no call of the loop waits
  -- for the mutex of the members or reads outside a buffer. Behind them the mutex is free, service
  -- and members are in step, and each member's descriptor is in use. That holds where the system
  -- gives out no descriptor that is in use and ends one by `close` only, where the functions of the
  -- service end none, where `recv` gives no more than `size` bytes at once, below 2 ^ 31, and the
  -- reply to each message of that size fits an `int` with its header, and where the loop had no
  -- descriptor to close at its start.
  pub wait_loop-stays_free :
      (s : Service V) (m m₀ : IoModule) (w : V) (res : ℤ) (rounds : List (List EpollEvent))
      (p : Pending) (σ : Host V) (size : ℕ)
      → Descriptors os InUse
      → Harmless InUse σ.service
      → size < 2 ^ 31
      → GivesAtMost os size
      → Brief mp size σ.service
      → s.clients ≡ []
      → m.members_locked ≡ false
      → m.io_members ≡ []
      → Service.start os zero s m w ≡ some (res, σ.service, m₀, σ.world)
      → is_neg res ≡ false
      → p.close_fds ≡ []
      → (ended : Bool) × (m' : IoModule) × (σ' : Host V) × (wait_loop
            (kernel os)
            (host_members mp os)
            rounds
            p
            m₀
            σ
          ≡ some (ended, m', σ'))
        × (m'.members_locked ≡ false)
        × InStep σ'.service m'
        × ((d : ℤ) (object : ℕ) → lookup d m'.io_members ≡ some object → InUse d σ'.world)
  wait_loop-stays_free s m m₀ w res rounds p σ size ds harmless small most brief none_yet free empty
        run fine no_close =
      let h = start-Follows os s σ.service m m₀ w σ.world res none_yet run fine in
      let g = start-Guarded os InUse ds s σ.service m m₀ w σ.world res free empty run fine in
      elim (Option-cases (wait_loop (kernel os) (host_members mp os) rounds p m₀ σ)) [
        | inl gone ↦ absurd (
            wait_loop_total mp os size small most InUse ds σ.service m₀ harmless brief rounds p m₀ σ
              no_close h g gone)
        | inr ((ended, m', σ'), rounds_run) ↦
            let behind =
              wait_loop-Guarded mp os InUse ds σ.service m₀ harmless rounds p m₀ m' σ σ' ended
                no_close h g rounds_run in
            let follows =
              wait_loop-Follows mp os σ.service m₀ rounds p m₀ m' σ σ' ended no_close h
                rounds_run in
            (ended, m', σ', rounds_run, behind.free, follows.in_step behind.free, behind.in_use)
      ]
