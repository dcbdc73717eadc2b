-- ===== src/Server/InStep/Guarded/Admission.antt =====
-- The descriptors in use where a connection is accepted and where the server's own socket fails:
-- deric_rpc/rpc/server/src/rpc_service.cpp, `handleOnConnectRequest`, and
-- deric_rpc/io/src/tcp_io_server.cpp, `onIoError`.
use deric_rpc.Prelude.{
  ℕ, ℤ, pos, true, false, ◌≡◌, ◌⊎◌, ◌∙◌, sym, refl, subst, Option, none, some, arith, inl, inr,
  Option-cases, Bool-cases, ℤ-cases, lookup, insert, erase, contains, contains-lookup,
  lookup-insert, lookup-erase, nat_equality, int_equality, int_beq, int_beq_iff, success,
}
use deric_rpc.Common.{initialized, started, is_started, IoMemberErrorAction}
use deric_rpc.Os.{Kernel, epoll_add, epoll_del}
use deric_rpc.Io.Connection.{set_io_client, set_io_fd, new_connection, get_fd}
use deric_rpc.Io.Connection
use deric_rpc.Io.Events.{
  IoModule, IoMember, modify_epoll_event, wakeup_module, add_io_member, remove_io_member,
}
use deric_rpc.Io.Server.{TcpIoServer}
use deric_rpc.Io.Server
use deric_rpc.Serial.{Msgpack}
use deric_rpc.Server.Client.{ClientEntry, new_client_entry, set_io_connection}
use deric_rpc.Server.Client
use deric_rpc.Server.Service.{Service, get_new_client_id, create_io_connection_client}
use deric_rpc.Server.Accept.{on_connect_request}
use deric_rpc.Server.Host.{Host, connection_object, held, service_lives, fail_server}
use deric_rpc.Server.InStep.{InStep}
use deric_rpc.Server.InStep.Admission.{accepted_entry}
use deric_rpc.Server.InStep.Guarded.{
  Descriptors, Guarded, moved-Guarded, served-Guarded, later-Guarded,
}
use deric_rpc.Server.InStep.Guarded.Calls.{modify_epoll_event-InUse}

module _ {V : Type 0} (os : Kernel V) (InUse : ℤ → V → Type 0) (ds : Descriptors os InUse) where
  pub wakeup_module-InUse :
      (d : ℤ) (m : IoModule) (w : V) → InUse d w → InUse d (wakeup_module os m w)
  unfolding wakeup_module
  wakeup_module-InUse d m w u =
      let after = wakeup_module os m w in
      let ways : (w ≡ after) ⊎ ((os.write_byte m.wakeup_write_fd b'1' w).1 ≡ after) =
        ground arith in
      elim ways [
        | inl same ↦ subst (InUse d) same u
        | inr done ↦ subst (InUse d) done (ds.write_byte m.wakeup_write_fd b'1' d w u)
      ]

  -- The module with a new connection.
  abbrev with_connection_on : ℕ → ℕ → IoModule → IoModule
  with_connection_on id n m = record m {
    io_members = insert (pos n) (connection_object id) m.io_members;
  }

  start-accepted_world :
      (id n : ℕ) (res : ℤ) (e : ClientEntry) (m m' : IoModule) (w w' : V)
      → m.members_locked ≡ false
      → contains (pos n) m.io_members ≡ false
      → Client.start os held service_lives (accepted_entry os id (pos n)) m w
        ≡ some (res, e, m', w')
      → let m₁ = with_connection_on id n m in
        (res ≡ success)
        × (m₁ ≡ m')
        × (wakeup_module os m₁ (modify_epoll_event os epoll_add (pos n) m₁ w).1 ≡ w')
  unfolding Client.start Connection.start add_io_member set_io_client set_io_fd new_connection
      get_fd
  start-accepted_world id n res e m m' w w' free fresh run = ground (arith, run, free, fresh)

  on_connect_request-world :
      (id index index' : ℕ) (server : TcpIoServer) (s s' : Service V) (m m' : IoModule) (w w' : V)
      (res : ℤ)
      → get_new_client_id index ≡ id
      → m.members_locked ≡ false
      → ((n : ℕ) → (os.accept server.socket_fd w).0 ≡ pos n → contains (pos n) m.io_members ≡ false)
      → on_connect_request os held service_lives id (connection_object id) index server s m w
        ≡ some (res, s', index', m', w')
      → let (fd, w₁) = os.accept server.socket_fd w in
        (s'.io_server ≡ s.io_server)
        × (((m ≡ m') × ((w ≡ w') ⊎ (w₁ ≡ w')))
            ⊎ ((n : ℕ) × (fd ≡ pos n)
                × (let m₁ = with_connection_on id n m in
                    (m₁ ≡ m')
                    × (wakeup_module os m₁ (modify_epoll_event os epoll_add (pos n) m₁ w₁).1
                        ≡ w'))))
  unfolding on_connect_request create_io_connection_client new_client_entry set_io_connection
  on_connect_request-world id index index' server s s' m m' w w' res numbered free fresh run =
      let (fd, w₁) = os.accept server.socket_fd w in
      elim (ℤ-cases fd) [
        | inr (n, refused) ↦ (ground (arith, run, refused), inl (ground (arith, run, refused)))
        | inl (n, accepted) ↦
            elim (Option-cases
              (Client.start os held service_lives (accepted_entry os id (pos n)) m w₁)) [
                | inl gone ↦ (
                  ground (arith, run, accepted, numbered, gone),
                  inl (ground (arith, run, accepted, numbered, gone)),
                )
                | inr ((r, e, m₂, w₂), began) ↦
                    let (fine, added, world) =
                      start-accepted_world id n r e m m₂ w₁ w₂ free (fresh n accepted) began in
                    let ends : ((m ≡ m') × (w ≡ w')) ⊎ ((m₂ ≡ m') × (w₂ ≡ w')) =
                      ground (arith, run, accepted, numbered, began, fine) in
                    (
                      ground (arith, run, accepted, numbered, began, fine),
                      elim ends [
                        | inl (same, still) ↦ inl (same, inl still)
                        | inr (same, on) ↦ inr (n, accepted, (added ∙ same, world ∙ on))
                      ],
                    )
              ]
      ]

  -- A descriptor that the system has just given out is no member's.
  fresh_member :
      (socket : ℤ) (n : ℕ) (s : Service V) (m : IoModule) (w : V)
      → Guarded InUse s m w
      → (os.accept socket w).0 ≡ pos n
      → contains (pos n) m.io_members ≡ false
  fresh_member socket n s m w g accepted = elim (Option-cases (lookup (pos n) m.io_members)) [
    | inl missing ↦ ground (arith, missing, contains-lookup (pos n) m.io_members)
    | inr (object, found) ↦ absurd (
        ds.accept_fresh socket w (ground (arith, accepted))
          (subst (λ d. InUse d w) (sym accepted) (g.in_use (pos n) object found)))
  ]

  pub on_connect_request-Guarded :
      (id index index' : ℕ) (server : TcpIoServer) (s s' : Service V) (m m' : IoModule) (w w' : V)
      (res : ℤ)
      → get_new_client_id index ≡ id
      → Guarded InUse s m w
      → on_connect_request os held service_lives id (connection_object id) index server s m w
        ≡ some (res, s', index', m', w')
      → Guarded InUse s' m' w'
  on_connect_request-Guarded id index index' server s s' m m' w w' res numbered g run =
      let (fd, w₁) = os.accept server.socket_fd w in
      let fresh =
        λ (n : ℕ) (accepted : fd ≡ pos n). fresh_member server.socket_fd n s m w g accepted in
      let (same_server, ways) =
        on_connect_request-world id index index' server s s' m m' w w' res numbered g.free fresh
          run in
      let g₁ = later-Guarded InUse s m w w₁ (λ d u. ds.accept server.socket_fd d w u) g in
      served-Guarded InUse s s' m' w' same_server (elim ways [
        | inl (same, inl still) ↦ moved-Guarded InUse s s m m' w w' g refl same still
        | inl (same, inr on) ↦ moved-Guarded InUse s s m m' w₁ w' g₁ refl same on
        | inr (n, accepted, (added, world)) ↦
            let m₁ = with_connection_on id n m in
            let w₂ = (modify_epoll_event os epoll_add (pos n) m₁ w₁).1 in
            let on = λ (d : ℤ) (u : InUse d w₁).
              wakeup_module-InUse d m₁ w₂
                (modify_epoll_event-InUse os InUse ds epoll_add (pos n) d m₁ w₁ u) in
            moved-Guarded InUse s s m₁ m' (wakeup_module os m₁ w₂) w'
              (record {
                free = g.free;
                in_use = λ d object found. elim (Bool-cases (int_beq (pos n) d)) [
                  | inl same ↦ on d (
                      subst (λ x. InUse x w₁) (accepted ∙ (int_beq_iff (pos n) d).0 same)
                        (ds.accept_opens server.socket_fd w (ground (arith, accepted))))
                  | inr other ↦ on d (
                      g₁.in_use d object (
                        ground (
                          arith,
                          found,
                          other,
                          lookup-insert (pos n) d (connection_object id) m.io_members,
                        )))
                ];
                server = g.server;
              })
              refl added world
      ])

  on_io_error-world :
      (t t' : TcpIoServer) (member : IoMember) (m m' : IoModule) (w w' : V)
      → t.state ≡ started
      → t.io_entry ≡ some member
      → m.members_locked ≡ false
      → contains member.fd m.io_members ≡ true
      → Server.on_io_error os t m w ≡ some (t', m', w')
      → let m₁ = record m { io_members = erase member.fd m.io_members } in
        (t'.state ≡ initialized)
        × (m₁ ≡ m')
        × (os.close t.socket_fd (modify_epoll_event os epoll_del member.fd m₁ w).1 ≡ w')
  unfolding Server.on_io_error Server.stop remove_io_member
  on_io_error-world t t' member m m' w w' running entry free used run =
      ground (arith, run, running, entry, free, used)

  on_io_error-idle :
      (t t' : TcpIoServer) (m m' : IoModule) (w w' : V)
      → is_started t.state ≡ false
      → Server.on_io_error os t m w ≡ some (t', m', w')
      → (t ≡ t') × (m ≡ m') × (w ≡ w')
  unfolding Server.on_io_error Server.stop
  on_io_error-idle t t' m m' w w' idle run = ground (arith, run, idle)

  pub fail_server-Guarded :
      (mp : Msgpack) (server : Option TcpIoServer) (action : IoMemberErrorAction) (σ σ' : Host V)
      → σ.service.io_server ≡ server
      → InStep σ.service σ.io_module
      → Guarded InUse σ.service σ.io_module σ.world
      → fail_server mp os server σ ≡ some (action, σ')
      → Guarded InUse σ'.service σ'.io_module σ'.world
  unfolding fail_server
  fail_server-Guarded mp none action σ σ' has h g run =
      moved-Guarded InUse σ.service σ'.service σ.io_module σ'.io_module σ.world σ'.world g
        (ground (arith, run)) (ground (arith, run)) (ground (arith, run))
  fail_server-Guarded mp (some t) action σ σ' has h g run =
      elim (Option-cases (Server.on_io_error os t σ.io_module σ.world)) [
        | inl gone ↦ absurd (ground (arith, run, gone))
        | inr ((t', m₁, w₁), failed) ↦
            let s₁ = record σ.service { io_server = some t' } in
            let service : s₁ ≡ σ'.service = ground (arith, run, failed) in
            let module_ : m₁ ≡ σ'.io_module = ground (arith, run, failed) in
            let world : w₁ ≡ σ'.world = ground (arith, run, failed) in
            elim (Bool-cases (is_started t.state)) [
              | inr idle ↦
                  let (same, same_module, still) =
                    on_io_error-idle t t' σ.io_module m₁ σ.world w₁ idle failed in
                  moved-Guarded InUse s₁ σ'.service σ.io_module σ'.io_module σ.world σ'.world
                    (served-Guarded InUse σ.service s₁ σ.io_module σ.world
                      (ground (arith, same, has)) g)
                    service (same_module ∙ module_) (still ∙ world)
              | inl running ↦
                  let up : t.state ≡ started = ground (arith, running) in
                  let (member, entry, socket) = g.server t has up in
                  let registered = h.listening t member has entry in
                  let (stopped, erased, closed) =
                    on_io_error-world t t' member σ.io_module m₁ σ.world w₁ up entry g.free
                      (ground (arith, registered, contains-lookup member.fd σ.io_module.io_members))
                      failed in
                  let m₂ = record σ.io_module {
                    io_members = erase member.fd σ.io_module.io_members;
                  } in
                  let w₂ = (modify_epoll_event os epoll_del member.fd m₂ σ.world).1 in
                  moved-Guarded InUse s₁ σ'.service m₂ σ'.io_module (os.close t.socket_fd w₂)
                    σ'.world
                    (record {
                      free = g.free;
                      in_use = λ d object found.
                          let kept = lookup-erase member.fd d σ.io_module.io_members in
                          ds.close t.socket_fd d w₂ (ground (arith, found, kept, socket)) (
                            modify_epoll_event-InUse os InUse ds epoll_del member.fd d m₂ σ.world
                              (g.in_use d object (ground (arith, found, kept))));
                      server = λ t₁ now up₁. absurd (ground (arith, now, up₁, stopped));
                    })
                    service (erased ∙ module_) (closed ∙ world)
            ]
      ]
