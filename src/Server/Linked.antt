-- ===== src/Server/Linked.antt =====
-- The clients of a service and their connections, which point to each other, over the rounds of the
-- event thread: the objects of deric_rpc/rpc/server and deric_rpc/io that Host puts together.
pub mod Admission
pub mod Rounds
use deric_rpc.Prelude.{
  ℕ, zero, suc, ℤ, Bool, Bytes, List, [], ◌∷◌, ◌≡◌, refl, ◌∙◌, sym, subst, true, false, Option,
  none, some, ◌>>=◌, arith, inl, inr, ◌⊎◌, Option-cases, Bool-cases, to_int, length, lookup, insert,
  erase, lookup-insert, lookup-erase, nat_beq, nat_beq_iff, nat_equality,
}
use deric_rpc.Common.{close_event, IoMemberError, IoMemberErrorAction, epoll_failed}
use deric_rpc.Os.{Kernel}
use deric_rpc.Io.Connection.{Connection, IoClients}
use deric_rpc.Io.Connection
use deric_rpc.Io.Connection.Preserves.{
  Keeps, send_data-io_client, on_read_available-Keeps, on_io_error-Keeps,
}
use deric_rpc.Io.Events.{IoModule}
use deric_rpc.Serial.{Msgpack}
use deric_rpc.Server.Client.{ClientEntry, IoConnection, stop, start}
use deric_rpc.Server.Service.{Service, remove_io_connection_client}
use deric_rpc.Server.Registry
use deric_rpc.Server.Handlers
use deric_rpc.Server.Host.{
  Host, connection_object, connection_or, with_connection, write_back, kernel, entry_data,
  entry_event, entries, pointed,
}

-- A client and its connection have each other's numbers.
pub record Linked (id : ℕ) (e : ClientEntry) : Type 0 where
  pub connection : Connection
  pub numbered : e.client_id ≡ id
  pub connected :
      e.io_connection ≡ some (record { object = connection_object id; connection = connection })
  pub client : connection.io_client ≡ some id

-- All clients of a service are linked to their connections.
abbrev pub IsLinked : {V : Type 0} → Service V → Type 0
IsLinked s = (id : ℕ) (e : ClientEntry) → lookup id s.clients ≡ some e → Linked id e

module _ {V : Type 0} (s : Service V) (h : IsLinked s) where
  pub remove-IsLinked : (gone : ℕ) → IsLinked (remove_io_connection_client gone s)
  unfolding remove_io_connection_client
  remove-IsLinked gone id e found = h id e (ground (arith, found, lookup-erase gone id s.clients))

  pub insert-IsLinked :
      (new : ℕ) (e : ClientEntry)
      → Linked new e
      → IsLinked (record s { clients = insert new e s.clients })
  insert-IsLinked new e linked id e' found = elim (Bool-cases (nat_beq new id)) [
    | inl same ↦
        let there : (e ≡ e') × (new ≡ id) =
          ground (arith, found, same, lookup-insert new id e s.clients, nat_beq_iff new id) in
        subst (Linked id) there.0 (subst (λ n. Linked n e) there.1 linked)
    | inr other ↦ h id e' (ground (arith, found, other, lookup-insert new id e s.clients))
  ]

module _ {V : Type 0} (os : Kernel V) where
  stop-io_client :
      (id : ℕ) (e e' : ClientEntry) (c : Connection) (m m' : IoModule) (w w' : V) (res : ℤ)
      → stop os (with_connection c e) m w ≡ some (res, e', m', w')
      → (connection_or c e'.io_connection).io_client ≡ c.io_client
  unfolding stop Connection.stop
  stop-io_client id e e' c m m' w w' res stopped = ground (arith, stopped)

module _ (mp : Msgpack) {V : Type 0} (os : Kernel V) (id : ℕ) where
  -- What a call of the connection keeps.
  abbrev pub Ours : Connection → Host V → Type 0
  Ours c σ = IsLinked σ.service × (c.io_client ≡ some id)

  handle_data-io_client :
      (service : Service V) (message : Option Bytes) (e e' : ClientEntry) (c : Connection)
      (w w' : V) (res : ℤ)
      → Handlers.handle_data os mp (some service) message (with_connection c e) w
        ≡ some (res, e', w')
      → (connection_or c e'.io_connection).io_client ≡ c.io_client
  unfolding Handlers.handle_data Handlers.send_data
  handle_data-io_client service message e e' c w w' res handled =
      let (_, reply, w₁) = Registry.handle_data mp service message [] w in
      elim (Option-cases (Connection.send_data os (some reply) (to_int (length reply)) c w₁)) [
        | inl gone ↦ ground (arith, handled, gone)
        | inr ((r, c', w₂), sent) ↦ ground (
          arith,
          handled,
          sent,
          send_data-io_client os (some reply) (to_int (length reply)) r c c' w₁ w₂ sent,
        )
      ]

  entry_data-Ours :
      (bytes : Option Bytes) (len res : ℤ) (c c' : Connection) (σ σ' : Host V)
      → Ours c σ
      → entry_data mp os id bytes len c σ ≡ some (res, c', σ')
      → Ours c' σ'
  unfolding entry_data
  entry_data-Ours bytes len res c c' σ σ' (h, client) e =
      let same : σ.service ≡ σ'.service = ground (arith, e) in
      elim (Option-cases (lookup id σ.service.clients)) [
        | inl gone ↦ absurd (ground (arith, e, gone))
        | inr (entry, listed) ↦ elim (Option-cases (pointed len bytes)) [
          | inl outside ↦ absurd (ground (arith, e, listed, outside))
          | inr (message, read) ↦
              elim (Option-cases (
                Handlers.handle_data os mp (some σ.service) message (with_connection c entry)
                  σ.world)) [
                    | inl gone ↦ absurd (ground (arith, e, listed, read, gone))
                    | inr ((r, e₁, w₁), handled) ↦
                        let kept =
                          handle_data-io_client σ.service message entry e₁ c σ.world w₁ r handled in
                        (
                          subst IsLinked same h,
                          ground (arith, e, listed, read, handled, kept, client),
                        )
                  ]
        ]
      ]

  entry_event-Ours :
      (res : ℤ) (c c' : Connection) (σ σ' : Host V)
      → Ours c σ
      → entry_event mp os id close_event c σ ≡ some (res, c', σ')
      → Ours c' σ'
  unfolding entry_event Handlers.handle_event
  entry_event-Ours res c c' σ σ' (h, client) e = elim (Option-cases (lookup id σ.service.clients)) [
    | inl gone ↦ absurd (ground (arith, e, gone))
    | inr (entry, listed) ↦
        elim (Option-cases (stop os (with_connection c entry) σ.io_module σ.world)) [
          | inl gone ↦ absurd (ground (arith, e, listed, gone))
          | inr ((r, e₁, m₁, w₁), stopped) ↦
              let kept = stop-io_client os id entry e₁ c σ.io_module m₁ σ.world w₁ r stopped in
              let same : remove_io_connection_client e₁.client_id σ.service ≡ σ'.service =
                ground (arith, e, listed, stopped) in
              (
                subst IsLinked same (remove-IsLinked σ.service h e₁.client_id),
                ground (arith, e, listed, stopped, kept, client),
              )
        ]
  ]

  pub entries-Ours : Keeps (kernel os) (entries mp os) Ours id
  entries-Ours = record {
    recvs = λ fd n c σ h. h;
    buffers = λ b c σ h. h;
    events = entry_event-Ours;
    messages = entry_data-Ours;
  }

  pub write_back-IsLinked :
      (c : Connection) (σ : Host V) → Ours c σ → IsLinked (write_back id c σ).service
  write_back-IsLinked c σ (h, client) = elim (Option-cases (lookup id σ.service.clients)) [
    | inl gone ↦ rw gone h
    | inr (entry, listed) ↦
        let numbered = (h id entry listed).numbered in
        rw listed (
          insert-IsLinked σ.service h id (with_connection c entry) (record {
            connection = c;
            numbered = numbered;
            connected = ground (arith, numbered);
            client = client;
          }))
  ]
