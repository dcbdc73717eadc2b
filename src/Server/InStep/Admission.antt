-- ===== src/Server/InStep/Admission.antt =====
-- A connection that a service accepts, in the tables of the service and of the event module:
-- `TcpIoServer::onConnectRequest` of deric_rpc/io/src/tcp_io_server.cpp.
use deric_rpc.Prelude.{
  ℕ, ℤ, pos, ◌≡◌, ◌⊎◌, refl, sym, int_beq_iff, lookup, lookup-insert, some, arith, inl, inr,
  Option-cases, insert, nat_equality, int_equality, ℤ-cases, success, true, false, contains,
}
use deric_rpc.Os.{Kernel}
use deric_rpc.Io.Connection.{
  Connection, IoClients, set_io_client, set_io_fd, new_connection, get_fd,
}
use deric_rpc.Io.Connection
use deric_rpc.Io.Events.{IoModule, add_io_member}
use deric_rpc.Io.Server.{TcpIoServer}
use deric_rpc.Server.Client.{ClientEntry, IoConnection, new_client_entry, set_io_connection}
use deric_rpc.Server.Client
use deric_rpc.Server.Service.{Service, get_new_client_id, create_io_connection_client}
use deric_rpc.Server.Accept.{on_connect_request, accepted_connection, started_entry}
use deric_rpc.Server.Host.{connection_object, held, service_lives}
use deric_rpc.Server.InStep.{Attended, Alike, Follows, moved-Follows, put-InStep, add-InStep}

module _ {V : Type 0} (os : Kernel V) where
  abbrev pub accepted_entry : ℕ → ℤ → ClientEntry
  accepted_entry id fd = record {
    client_id = id;
    io_connection =
        some (accepted_connection os (held {V = V}) service_lives id (connection_object id) fd);
  }

  -- A start of an accepted connection succeeds whenever it comes back.
  start-accepted_entry :
      (id n : ℕ) (res : ℤ) (e : ClientEntry) (m m' : IoModule) (w w' : V)
      → Client.start os held service_lives (accepted_entry id (pos n)) m w ≡ some (res, e, m', w')
      → (res ≡ success)
        × (e ≡ started_entry os held service_lives id id (connection_object id) n)
        × ((m' ≡ record m { members_locked = true })
            ⊎ ((contains (pos n) m.io_members ≡ false)
                × (m' ≡ record m {
                  io_members = insert (pos n) (connection_object id) m.io_members;
                })))
  unfolding Client.start Connection.start add_io_member set_io_client set_io_fd new_connection
      get_fd
  start-accepted_entry id n res e m m' w w' run = ground (arith, run)

  on_connect_request-cases :
      (id index index' : ℕ) (server : TcpIoServer) (s s' : Service V) (m m' : IoModule) (w w' : V)
      (res : ℤ)
      → get_new_client_id index ≡ id
      → on_connect_request os held service_lives id (connection_object id) index server s m w
        ≡ some (res, s', index', m', w')
      → ((s ≡ s') × (m ≡ m'))
        ⊎ ((n : ℕ) × (s' ≡ record s {
          clients =
              insert id
                (started_entry os held service_lives id id (connection_object id) n)
                (insert id (new_client_entry id) s.clients);
        })
            × ((m' ≡ record m { members_locked = true })
                ⊎ ((contains (pos n) m.io_members ≡ false)
                    × (m' ≡ record m {
                      io_members = insert (pos n) (connection_object id) m.io_members;
                    }))))
  unfolding on_connect_request create_io_connection_client new_client_entry set_io_connection
  on_connect_request-cases id index index' server s s' m m' w w' res numbered run =
      let (fd, w₁) = os.accept server.socket_fd w in
      elim (ℤ-cases fd) [
        | inr (n, refused) ↦ inl (ground (arith, run, refused))
        | inl (n, accepted) ↦
            elim (Option-cases
              (Client.start os held service_lives (accepted_entry id (pos n)) m w₁)) [
                | inl gone ↦ inl (ground (arith, run, accepted, numbered, gone))
                | inr ((r, e, m₂, w₂), began) ↦
                    let (fine, entry, members) = start-accepted_entry id n r e m m₂ w₁ w₂ began in
                    let ends : ((s ≡ s') × (m ≡ m'))
                        ⊎ ((m₂ ≡ m')
                            × (s' ≡ record s {
                              clients =
                                  insert id
                                    (started_entry os held service_lives id id
                                      (connection_object id) n)
                                    (insert id (new_client_entry id) s.clients);
                            })) =
                      ground (arith, run, accepted, numbered, began, fine, entry) in
                    elim ends [
                      | inl same ↦ inl same
                      | inr (same, listed) ↦ inr (n, listed, ground (arith, members, same))
                    ]
              ]
      ]

  started_entry-Attended :
      (id n : ℕ) (m : IoModule)
      → lookup (pos n) m.io_members ≡ some (connection_object id)
      → Attended m id (started_entry os held service_lives id id (connection_object id) n)
  started_entry-Attended id n m registered = record {
    connection = _;
    numbered = refl;
    connected = refl;
    client = refl;
    is_open = record { fd = n; up = refl; opened = refl; registered = registered };
  }

module _ {V : Type 0} (os : Kernel V) (s₀ : Service V) (m₀ : IoModule) where
  -- Behind the admission of a connection the tables still belong together, if the mutex is free.
  pub on_connect_request-Follows :
      (id index index' : ℕ) (server : TcpIoServer) (s s' : Service V) (m m' : IoModule) (w w' : V)
      (res : ℤ)
      → get_new_client_id index ≡ id
      → m.members_locked ≡ false
      → Follows s₀ m₀ s m
      → on_connect_request os held service_lives id (connection_object id) index server s m w
        ≡ some (res, s', index', m', w')
      → Follows s₀ m₀ s' m'
  on_connect_request-Follows id index index' server s s' m m' w w' res numbered free h run =
      elim (on_connect_request-cases os id index index' server s s' m m' w w' res numbered run) [
        | inl (same, same_module) ↦ moved-Follows s₀ m₀ s s' m m' h same same_module
        | inr (n, listed, members) ↦
            let e = started_entry os held service_lives id id (connection_object id) n in
            let d = insert id e (insert id (new_client_entry id) s.clients) in
            let s₁ = record s { clients = d } in
            let like : Alike s₀ s₁ = record {
              state = h.alike.state;
              serialer = h.alike.serialer;
              functions = h.alike.functions;
            } in
            elim members [
              | inl locked ↦
                  moved-Follows s₀ m₀ s₁ s' (record m { members_locked = true }) m'
                    (record {
                      alike = like;
                      pipe = h.pipe;
                      in_step = λ unlocked. absurd (ground (arith, unlocked));
                    })
                    (sym listed) (sym locked)
              | inr (fresh, added) ↦
                  let m₁ = record m {
                    io_members = insert (pos n) (connection_object id) m.io_members;
                  } in
                  moved-Follows s₀ m₀ s₁ s' m₁ m'
                    (record {
                      alike = like;
                      pipe = h.pipe;
                      in_step = λ unlocked.
                          put-InStep s m₁
                            (add-InStep s m (h.in_step free) (pos n) (connection_object id) fresh)
                            id e d
                            (λ other. ground (
                              arith,
                              lookup-insert id other e (insert id (new_client_entry id) s.clients),
                              lookup-insert id other (new_client_entry id) s.clients,
                            ))
                            (started_entry-Attended os id n m₁ (
                              ground (
                                arith,
                                lookup-insert (pos n) (pos n) (connection_object id) m.io_members,
                                int_beq_iff (pos n) (pos n),
                              )));
                    })
                    (sym listed) (sym added)
            ]
      ]
