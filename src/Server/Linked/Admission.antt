-- ===== src/Server/Linked/Admission.antt =====
-- A connection that a service accepts: `TcpIoServer::onConnectRequest` of
-- deric_rpc/io/src/tcp_io_server.cpp.
use deric_rpc.Prelude.{
  ℕ, ℤ, ◌≡◌, ◌⊎◌, refl, sym, nat_beq, nat_beq_iff, lookup-insert, subst, some, arith, inl, inr,
  Option-cases, Bool, Bool-cases, insert, nat_equality,
}
use deric_rpc.Os.{Kernel}
use deric_rpc.Io.Connection.{Connection, IoClients, set_io_client, set_io_fd, new_connection}
use deric_rpc.Io.Connection
use deric_rpc.Io.Events.{IoModule}
use deric_rpc.Io.Server.{TcpIoServer}
use deric_rpc.Server.Client.{ClientEntry, IoConnection, new_client_entry, set_io_connection}
use deric_rpc.Server.Client
use deric_rpc.Server.Service.{
  Service, get_new_client_id, create_io_connection_client, remove_io_connection_client,
}
use deric_rpc.Server.Accept.{on_connect_request}
use deric_rpc.Server.Host.{connection_object, connection_or}
use deric_rpc.Server.Linked.{Linked, IsLinked, remove-IsLinked}

module _ {V : Type 0} (os : Kernel V) (clients : IoClients V) (alive : V → Bool) where
  start-connected :
      (e e' : ClientEntry) (io : IoConnection) (m m' : IoModule) (w w' : V) (res : ℤ)
      → e.io_connection ≡ some io
      → Client.start os clients alive e m w ≡ some (res, e', m', w')
      → let c = connection_or io.connection e'.io_connection in
        (e'.client_id ≡ e.client_id)
        × (e'.io_connection ≡ some (record io { connection = c }))
        × (c.io_client ≡ io.connection.io_client)
  unfolding Client.start Connection.start
  start-connected e e' io m m' w w' res has began = ground (arith, has, began)

  -- The entry that a service makes for an accepted descriptor.
  abbrev new_entry : ℕ → ℤ → ClientEntry
  new_entry id fd = record {
    client_id = id;
    io_connection = some (record {
      object = connection_object id;
      connection = record new_connection { socket_fd = fd; io_client = some id };
    });
  }

  on_connect_request-cases :
      (index index' : ℕ) (server : TcpIoServer) (s s' : Service V) (m m' : IoModule) (w w' : V)
      (res : ℤ)
      → let id = get_new_client_id index in
        on_connect_request os clients alive id (connection_object id) index server s m w
          ≡ some (res, s', index', m', w')
        → (s ≡ s')
          ⊎ ((fd : ℤ) × (e : ClientEntry) × (r : ℤ) × (m₁ : IoModule) × (w₁ : V) × (Client.start os
                  clients alive
                  (new_entry id fd)
                  m
                  (os.accept server.socket_fd w).1
                ≡ some (r, e, m₁, w₁))
              × ((s' ≡ record s {
                clients = insert id e (insert id (new_client_entry id) s.clients);
              })
                  ⊎ (s'
                      ≡ remove_io_connection_client id (record s {
                        clients = insert id e (insert id (new_client_entry id) s.clients);
                      }))))
  unfolding on_connect_request create_io_connection_client new_client_entry set_io_connection
      set_io_client set_io_fd
  on_connect_request-cases index index' server s s' m m' w w' res run =
      let id = get_new_client_id index in
      let (fd, w₁) = os.accept server.socket_fd w in
      elim (Option-cases (Client.start os clients alive (new_entry id fd) m w₁)) [
        | inl gone ↦ inl (ground (arith, run, gone))
        | inr ((r, e, m₂, w₂), began) ↦
            let with_new = record s {
              clients = insert id e (insert id (new_client_entry id) s.clients);
            } in
            let ends : (s ≡ s')
                ⊎ ((s' ≡ with_new) ⊎ (s' ≡ remove_io_connection_client id with_new)) =
              ground (arith, run, began) in
            elim ends [ inl same ↦ inl same | inr changed ↦ inr (fd, e, r, m₂, w₂, began, changed) ]
      ]

  started-Linked :
      (id : ℕ) (fd res : ℤ) (e : ClientEntry) (m m' : IoModule) (w w' : V)
      → Client.start os clients alive (new_entry id fd) m w ≡ some (res, e, m', w')
      → Linked id e
  started-Linked id fd res e m m' w w' began =
      let io : IoConnection = record {
        object = connection_object id;
        connection = record new_connection { socket_fd = fd; io_client = some id };
      } in
      let (numbered, connected, client) =
        start-connected (new_entry id fd) e io m m' w w' res refl began in
      record {
        connection = connection_or io.connection e.io_connection;
        numbered = numbered;
        connected = connected;
        client = client;
      }

  new_then_listed :
      (id : ℕ) (e : ClientEntry) (s : Service V)
      → IsLinked s
      → Linked id e
      → IsLinked (record s { clients = insert id e (insert id (new_client_entry id) s.clients) })
  new_then_listed id e s h linked other e' found = elim (Bool-cases (nat_beq id other)) [
    | inl same ↦
        let there : (e ≡ e') × (id ≡ other) = ground (
          arith,
          found,
          same,
          lookup-insert id other e (insert id (new_client_entry id) s.clients),
          nat_beq_iff id other,
        ) in
        subst (Linked other) there.0 (subst (λ n. Linked n e) there.1 linked)
    | inr differs ↦ h other e' (
        ground (
          arith,
          found,
          differs,
          lookup-insert id other e (insert id (new_client_entry id) s.clients),
          lookup-insert id other (new_client_entry id) s.clients,
        ))
  ]

  pub on_connect_request-IsLinked :
      (index index' : ℕ) (server : TcpIoServer) (s s' : Service V) (m m' : IoModule) (w w' : V)
      (res : ℤ)
      → IsLinked s
      → let id = get_new_client_id index in
        on_connect_request os clients alive id (connection_object id) index server s m w
          ≡ some (res, s', index', m', w')
        → IsLinked s'
  on_connect_request-IsLinked index index' server s s' m m' w w' res h run =
      let id = get_new_client_id index in
      elim (on_connect_request-cases index index' server s s' m m' w w' res run) [
        | inl same ↦ subst IsLinked same h
        | inr (fd, e, r, m₁, w₁, began, changed) ↦
            let linked = started-Linked id fd r e m m₁ (os.accept server.socket_fd w).1 w₁ began in
            let with_new = record s {
              clients = insert id e (insert id (new_client_entry id) s.clients);
            } in
            let h' : IsLinked with_new = new_then_listed id e s h linked in
            elim changed [
              | inl same ↦ subst IsLinked (sym same) h'
              | inr same ↦ subst IsLinked (sym same) (remove-IsLinked with_new h' id)
            ]
      ]
