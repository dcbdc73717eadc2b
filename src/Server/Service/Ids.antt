-- ===== src/Server/Service/Ids.antt =====
-- The ids of a service's clients, over the life of the service: deric_rpc/rpc/server/src/rpc_service_impl.cpp,
-- `getNewClientId`, `createIoConnectionClient` and `removeIoConnectionClient`, with `init`, `deInit`,
-- `start` and `stop`, and deric_rpc/io/src/tcp_io_server.cpp, `onConnectRequest`.
use deric_rpc.Prelude.{
  ℕ, ℤ, ◌+◌, ◌^◌, ◌<◌, ◌≡◌, ◌⊎◌, inl, inr, refl, [], Bool, true, false, some, arith, Bytes, Dict,
  contains, insert, erase, lookup, nat_beq, nat_beq_iff, nat_equality, contains-lookup,
  lookup-insert, lookup-erase, if◌then◌else◌, Option-cases,
}
use deric_rpc.Os.{Kernel}
use deric_rpc.Io.Connection.{IoClients}
use deric_rpc.Io.Events.{IoModule}
use deric_rpc.Io.Server.{TcpIoServer}
use deric_rpc.Server.Client.{ClientEntry, new_client_entry, set_io_connection}
use deric_rpc.Server.Client
use deric_rpc.Function.{ServiceFunction}
use deric_rpc.Server.Accept.{on_connect_request, accepted_connection}
use deric_rpc.Server.Service.Lifecycle.{Request, call, inits, de_inits, starts, stops}
use deric_rpc.Server.Service.{
  Service, new_service, init, de_init, start, stop, get_new_client_id, create_io_connection_client,
  remove_io_connection_client,
}

get_new_client_id-small : (index : ℕ) → index + 1 < 2 ^ 32 → get_new_client_id index ≡ index + 1
unfolding get_new_client_id
get_new_client_id-small index small = omega arith

module _ {W : Type 0} (os : Kernel W) (clients : IoClients W) (service_alive : W → Bool) where
  -- The counter of the process, and a service of it, as they may be together: the service is set up,
  -- started, stopped and ended, it takes functions, its server accepts connections, its clients go,
  -- and their entries change. Other services draw ids too. The counter has not passed its width.
  pub data Reaches : ℕ → Service W → Type 0 where
    born : (index : ℕ) (name : Bytes) → index < 2 ^ 32 → Reaches index (new_service name)
    elsewhere :
        {index : ℕ} {s : Service W}
        → Reaches index s
        → index + 1 < 2 ^ 32
        → Reaches (get_new_client_id index) s
    called :
        {index : ℕ} {s : Service W} (r : Request) (s' : Service W) (m m' : IoModule) (w w' : W)
        (res : ℤ)
        → Reaches index s
        → call os r s m w ≡ some (res, s', m', w')
        → Reaches index s'
    registered :
        {index : ℕ} {s : Service W} (functions : Dict Bytes (ServiceFunction W))
        → Reaches index s
        → Reaches index (record s { functions = functions })
    connected :
        {index : ℕ} {s : Service W}
        → Reaches index s
        → index + 1 < 2 ^ 32
        → Reaches (create_io_connection_client index s).2 (create_io_connection_client index s).1
    accepted :
        {index : ℕ} {s : Service W} (object : ℕ) (server : TcpIoServer) (index' : ℕ)
        (s' : Service W) (m m' : IoModule) (w w' : W) (res : ℤ)
        → Reaches index s
        → index + 1 < 2 ^ 32
        → on_connect_request os clients service_alive
            (get_new_client_id index)
            object
            index
            server
            s
            m
            w
          ≡ some (res, s', index', m', w')
        → Reaches index' s'
    changed :
        {index : ℕ} {s : Service W} (id : ℕ) (entry : ClientEntry)
        → Reaches index s
        → contains id s.clients ≡ true
        → Reaches index (record s { clients = insert id entry s.clients })
    removed :
        {index : ℕ} {s : Service W} (client_id : ℕ)
        → Reaches index s
        → Reaches index (remove_io_connection_client client_id s)

  -- A call of the service's life keeps its clients, or drops them all.
  call-clients :
      (r : Request) (s s' : Service W) (m m' : IoModule) (w w' : W) (res : ℤ)
      → call os r s m w ≡ some (res, s', m', w')
      → (s'.clients ≡ s.clients) ⊎ (s'.clients ≡ [])
  unfolding call init de_init start stop
  call-clients (inits self config) s s' m m' w w' res e = ground (arith, e)
  call-clients de_inits s s' m m' w w' res e = ground (arith, e)
  call-clients (starts entry) s s' m m' w w' res e = ground (arith, e)
  call-clients stops s s' m m' w w' res e = ground (arith, e)

  -- An accepted connection adds the client of the next id at most.
  on_connect_request-ids :
      (entry_object object index index' id : ℕ) (server : TcpIoServer) (s s' : Service W)
      (m m' : IoModule) (w w' : W) (res : ℤ)
      → on_connect_request os clients service_alive entry_object object index server s m w
        ≡ some (res, s', index', m', w')
      → ((index ≡ index') × (s ≡ s'))
        ⊎ ((index' ≡ get_new_client_id index)
            × (nat_beq index' id ≡ false → contains id s'.clients ≡ contains id s.clients))
  unfolding on_connect_request create_io_connection_client remove_io_connection_client
  on_connect_request-ids entry_object object index index' id server s s' m m' w w' res run =
      let (fd, w₁) = os.accept server.socket_fd w in
      let n = get_new_client_id index in
      let entry =
        set_io_connection
          (some (accepted_connection os clients service_alive entry_object object fd))
          (new_client_entry n) in
      let one = insert n (new_client_entry n) s.clients in
      elim (Option-cases (Client.start os clients service_alive entry m w₁)) [
        | inl gone ↦ inl (ground (arith, run, gone))
        | inr ((r, e, m₂, w₂), began) ↦
            let two = insert n e one in
            let ends : ((index ≡ index') × (s ≡ s'))
                ⊎ ((index' ≡ n) × (s'.clients ≡ two))
                ⊎ ((index' ≡ n) × (s'.clients ≡ erase n two)) =
              ground (arith, run, began) in
            let first = lookup-insert n id (new_client_entry n) s.clients in
            let second = lookup-insert n id e one in
            elim ends [
              | inl same ↦ inl same
              | inr (inl (next, put)) ↦ inr (
                next,
                λ other. ground (
                  arith,
                  next,
                  put,
                  other,
                  first,
                  second,
                  contains-lookup id two,
                  contains-lookup id s.clients,
                ),
              )
              | inr (inr (next, put)) ↦ inr (
                next,
                λ other. ground (
                  arith,
                  next,
                  put,
                  other,
                  first,
                  second,
                  lookup-erase n id two,
                  contains-lookup id (erase n two),
                  contains-lookup id s.clients,
                ),
              )
            ]
      ]

  -- The ids in use are ids that the counter has given.
  abbrev IsBounded : ℕ → Service W → Type 0
  IsBounded index s = (index < 2 ^ 32) × ((id : ℕ) → index < id → contains id s.clients ≡ false)

  call-IsBounded :
      (index : ℕ) (r : Request) (s s' : Service W) (m m' : IoModule) (w w' : W) (res : ℤ)
      → call os r s m w ≡ some (res, s', m', w')
      → IsBounded index s
      → IsBounded index s'
  unfolding contains
  call-IsBounded index r s s' m m' w w' res e (bound, above) =
      elim (call-clients r s s' m m' w w' res e) [
        | inl same ↦ (bound, λ id h. rw same (above id h))
        | inr none_left ↦ (bound, λ id h. rw none_left refl)
      ]

  accept-IsBounded :
      (object index index' : ℕ) (server : TcpIoServer) (s s' : Service W) (m m' : IoModule)
      (w w' : W) (res : ℤ)
      → index + 1 < 2 ^ 32
      → on_connect_request os clients service_alive
          (get_new_client_id index)
          object
          index
          server
          s
          m
          w
        ≡ some (res, s', index', m', w')
      → IsBounded index s
      → IsBounded index' s'
  accept-IsBounded object index index' server s s' m m' w w' res small run (bound, above) =
      let next = get_new_client_id-small index small in
      let ids = λ (id : ℕ).
        on_connect_request-ids (get_new_client_id index) object index index' id server s s' m m' w
          w' res run in
      (
        ground (arith, ids 0, next, small, bound),
        λ id h. elim (ids id) [
          | inl (same, still) ↦ ground (arith, above id (ground (arith, same, h)), still)
          | inr (new, kept) ↦
              let far : index < id = ground (arith, new, next, h) in
              ground (arith, kept, above id far, h, nat_beq_iff index' id)
        ],
      )

  Reaches-IsBounded : (index : ℕ) (s : Service W) → Reaches index s → IsBounded index s
  unfolding get_new_client_id create_io_connection_client remove_io_connection_client new_service
      contains
  Reaches-IsBounded index s (born _ name small) = (small, λ id h. refl)
  Reaches-IsBounded _ s (elsewhere {index} r small) =
      let (_, above) = Reaches-IsBounded index s r in (omega arith, λ id h. above id (omega arith))
  Reaches-IsBounded index _ (called {s = s} q s' m m' w w' res r e) =
      call-IsBounded index q s s' m m' w w' res e (Reaches-IsBounded index s r)
  Reaches-IsBounded index _ (registered {s = s} functions r) = Reaches-IsBounded index s r
  Reaches-IsBounded _ _ (connected {index} {s} r small) =
      let (_, above) = Reaches-IsBounded index s r in
      (
        omega arith,
        λ id h.
            let next = get_new_client_id-small index small in
            ground (
              arith,
              next,
              nat_beq_iff (get_new_client_id index) id,
              contains-lookup id s.clients,
              contains-lookup id (create_io_connection_client index s).1.clients,
              lookup-insert (get_new_client_id index) id
                  (new_client_entry (get_new_client_id index)) s.clients,
              above id (omega arith),
            ),
      )
  Reaches-IsBounded _ _ (accepted {index} {s} object server index' s' m m' w w' res r small run) =
      accept-IsBounded object index index' server s s' m m' w w' res small run
        (Reaches-IsBounded index s r)
  Reaches-IsBounded index _ (changed {s = s} client_id entry r there) =
      let (bound, above) = Reaches-IsBounded index s r in
      (
        bound,
        λ id h. ground (
          arith,
          there,
          contains-lookup id s.clients,
          contains-lookup id (insert client_id entry s.clients),
          lookup-insert client_id id entry s.clients,
          nat_beq_iff client_id id,
          above id h,
        ),
      )
  Reaches-IsBounded index _ (removed {s = s} client_id r) =
      let (bound, above) = Reaches-IsBounded index s r in
      (
        bound,
        λ id h. ground (
          arith,
          contains-lookup id s.clients,
          contains-lookup id (remove_io_connection_client client_id s).clients,
          lookup-erase client_id id s.clients,
          above id h,
        ),
      )

  -- However often a service has been set up, started and stopped, and whatever connections its server
  -- has accepted and lost, a new client gets an id that no client of the service has: it is found
  -- under it, and every other client is found as before. The counter does not pass its 32 bits.
  pub create_io_connection_client_fresh :
      (index other : ℕ) (s : Service W)
      → Reaches index s
      → index + 1 < 2 ^ 32
      → let (entry, s', index') = create_io_connection_client index s in
        (contains entry.client_id s.clients ≡ false)
        × (entry.client_id ≡ index')
        × (lookup other s'.clients
            ≡ (if nat_beq entry.client_id other then some entry else lookup other s.clients))
        × Reaches index' s'
  unfolding create_io_connection_client new_client_entry
  create_io_connection_client_fresh index other s r small =
      let (_, above) = Reaches-IsBounded index s r in
      let next = get_new_client_id-small index small in
      let id = get_new_client_id index in
      (
        above id (omega arith),
        refl,
        lookup-insert id other (new_client_entry id) s.clients,
        connected r small,
      )
