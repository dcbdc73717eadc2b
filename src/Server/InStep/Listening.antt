-- ===== src/Server/InStep/Listening.antt =====
-- The server's own member: `TcpIoServer::start` and `onIoError` of
-- deric_rpc/io/src/tcp_io_server.cpp, with the service that owns the server.
use deric_rpc.Prelude.{
  zero, ℤ, [], ◌≡◌, ◌⊎◌, ◌∙◌, refl, none, some, arith, inl, inr, Option, Option-cases, lookup,
  erase, lookup-insert, int_beq_iff, int_equality, nat_equality, contains, contains-lookup, false,
  true, is_neg,
}
use deric_rpc.Os.{Kernel}
use deric_rpc.Common.{IoMemberErrorAction, keep}
use deric_rpc.Io.Events.{IoModule, IoMember, add_io_member, remove_io_member}
use deric_rpc.Io.Server.{TcpIoServer}
use deric_rpc.Io.Server
use deric_rpc.Serial.{Msgpack}
use deric_rpc.Server.Service.{Service}
use deric_rpc.Server.Service
use deric_rpc.Server.Host.{Host, fail_server}
use deric_rpc.Server.InStep.{Alike, Follows, moved-Follows, close-InStep, without_entry-InStep}

module _ {V : Type 0} (os : Kernel V) where
  -- An error of the server's socket: the server was not running, or it has no member any more.
  on_io_error-bare :
      (t t' : TcpIoServer) (m m' : IoModule) (w w' : V)
      → t.io_entry ≡ none
      → Server.on_io_error os t m w ≡ some (t', m', w')
      → ((t ≡ t') × (m ≡ m')) ⊎ ((t'.io_entry ≡ none) × (m ≡ m'))
  unfolding Server.on_io_error Server.stop
  on_io_error-bare t t' m m' w w' bare run = ground (arith, run, bare)

  on_io_error-registered :
      (t t' : TcpIoServer) (member : IoMember) (m m' : IoModule) (w w' : V)
      → t.io_entry ≡ some member
      → m.members_locked ≡ false
      → contains member.fd m.io_members ≡ true
      → Server.on_io_error os t m w ≡ some (t', m', w')
      → ((t ≡ t') × (m ≡ m'))
        ⊎ ((t'.io_entry ≡ none) × (record m { io_members = erase member.fd m.io_members } ≡ m'))
  unfolding Server.on_io_error Server.stop remove_io_member
  on_io_error-registered t t' member m m' w w' entry free used run =
      ground (arith, run, entry, free, used)

  -- A started server is registered under its descriptor.
  start-registered :
      (t t' : TcpIoServer) (m m' : IoModule) (w w' : V) (res : ℤ)
      → Server.start os zero t m w ≡ some (res, t', m', w')
      → is_neg res ≡ false
      → m'.members_locked ≡ false
      → (member : IoMember) → t'.io_entry ≡ some member
      → lookup member.fd m'.io_members ≡ some zero
  unfolding Server.start add_io_member
  start-registered t t' m m' w w' res run fine free member entry = ground (
    arith,
    run,
    fine,
    free,
    entry,
    lookup-insert (os.socket w).0 member.fd zero m.io_members,
    int_beq_iff (os.socket w).0 member.fd,
  )

  start-registers :
      (s s' : Service V) (m m' : IoModule) (w w' : V) (res : ℤ)
      → Service.start os zero s m w ≡ some (res, s', m', w')
      → is_neg res ≡ false
      → m'.members_locked ≡ false
      → (t : TcpIoServer) (member : IoMember) → s'.io_server ≡ some t
      → t.io_entry ≡ some member
      → lookup member.fd m'.io_members ≡ some zero
  unfolding Service.start
  start-registers s s' m m' w w' res run fine free t member has entry =
      elim (Option-cases s.io_server) [
        | inl bare ↦ absurd (ground (arith, run, fine, bare))
        | inr (server, there) ↦ elim (Option-cases (Server.start os zero server m w)) [
          | inl gone ↦ absurd (ground (arith, run, fine, there, gone))
          | inr ((r, t₁, m₁, w₁), began) ↦
              let same : (r ≡ res) × (t₁ ≡ t) × (m₁ ≡ m') =
                ground (arith, run, fine, there, began, has) in
              ground (
                arith,
                same,
                start-registered server t₁ m m₁ w w₁ r began (ground (arith, fine, same))
                    (ground (arith, free, same)) member (ground (arith, entry, same)),
              )
        ]
      ]

  start-clients :
      (s s' : Service V) (m m' : IoModule) (w w' : V) (res : ℤ)
      → Service.start os zero s m w ≡ some (res, s', m', w')
      → s'.clients ≡ s.clients
  unfolding Service.start
  start-clients s s' m m' w w' res run = ground (arith, run)

  -- A service that starts without clients is in step with the event module.
  pub start-Follows :
      (s s' : Service V) (m m' : IoModule) (w w' : V) (res : ℤ)
      → s.clients ≡ []
      → Service.start os zero s m w ≡ some (res, s', m', w')
      → is_neg res ≡ false
      → Follows s' m' s' m'
  start-Follows s s' m m' w w' res none_yet run fine = record {
    alike = record { state = refl; serialer = refl; functions = refl };
    pipe = refl;
    in_step = λ free. record {
      attended = λ id e found.
          absurd (
            unfold lookup in ground (arith, found, none_yet, start-clients s s' m m' w w' res run));
      listening =
          λ t member has entry. start-registers s s' m m' w w' res run fine free t member has entry;
    };
  }

module _ {V : Type 0} (os : Kernel V) (s₀ : Service V) (m₀ : IoModule) where
  pub fail_server-Follows :
      (mp : Msgpack) (server : Option TcpIoServer) (action : IoMemberErrorAction) (σ σ' : Host V)
      → σ.service.io_server ≡ server
      → σ.io_module.members_locked ≡ false
      → Follows s₀ m₀ σ.service σ.io_module
      → fail_server mp os server σ ≡ some (action, σ')
      → (action ≡ keep) × Follows s₀ m₀ σ'.service σ'.io_module
  unfolding fail_server
  fail_server-Follows mp none action σ σ' has free h run = (
    ground (arith, run),
    moved-Follows s₀ m₀ σ.service σ'.service σ.io_module σ'.io_module h (ground (arith, run))
        (ground (arith, run)),
  )
  fail_server-Follows mp (some t) action σ σ' has free h run =
      elim (Option-cases (Server.on_io_error os t σ.io_module σ.world)) [
        | inl gone ↦ absurd (ground (arith, run, gone))
        | inr ((t', m₁, w₁), failed) ↦
            let step = h.in_step free in
            let service : record σ.service { io_server = some t' } ≡ σ'.service =
              ground (arith, run, failed) in
            let module_ : m₁ ≡ σ'.io_module = ground (arith, run, failed) in
            let like : Alike s₀ (record σ.service { io_server = some t' }) = record {
              state = h.alike.state;
              serialer = h.alike.serialer;
              functions = h.alike.functions;
            } in
            (
              ground (arith, run, failed),
              elim (Option-cases t.io_entry) [
                | inl bare ↦ elim (on_io_error-bare os t t' σ.io_module m₁ σ.world w₁ bare failed) [
                  | inl (same, same_module) ↦
                      moved-Follows s₀ m₀ σ.service σ'.service σ.io_module σ'.io_module h
                        (ground (arith, service, same, has)) (same_module ∙ module_)
                  | inr (closed, same_module) ↦
                      moved-Follows s₀ m₀ (record σ.service { io_server = some t' }) σ'.service
                        σ.io_module σ'.io_module
                        (record {
                          alike = like;
                          pipe = h.pipe;
                          in_step =
                              λ unlocked. without_entry-InStep σ.service σ.io_module step t' closed;
                        })
                        service (same_module ∙ module_)
                ]
                | inr (member, entry) ↦
                    let registered = step.listening t member has entry in
                    elim (on_io_error-registered os t t' member σ.io_module m₁ σ.world w₁ entry free
                      (ground (arith, registered, contains-lookup member.fd σ.io_module.io_members))
                      failed) [
                        | inl (same, same_module) ↦
                            moved-Follows s₀ m₀ σ.service σ'.service σ.io_module σ'.io_module h
                              (ground (arith, service, same, has)) (same_module ∙ module_)
                        | inr (closed, erased) ↦
                            moved-Follows s₀ m₀ (record σ.service { io_server = some t' })
                              σ'.service
                              (record σ.io_module {
                                io_members = erase member.fd σ.io_module.io_members;
                              })
                              σ'.io_module
                              (record {
                                alike = like;
                                pipe = h.pipe;
                                in_step = λ unlocked.
                                    close-InStep σ.service σ.io_module step member.fd t' registered
                                      closed;
                              })
                              service (erased ∙ module_)
                      ]
              ],
            )
      ]
