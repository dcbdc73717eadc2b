-- ===== src/Rpc/Isolation.antt =====
-- What the connection of one client can change of a process with one service:
-- `TcpIoConnection::onReadAvailable` and `onIoError`, RpcServiceClientEntry, and what they call.
pub mod Events
use deric_rpc.Prelude.{
  ℕ, ℤ, Bytes, ◌≡◌, refl, ◌∙◌, subst, false, Option, some, arith, inl, inr, Option-cases, lookup,
  insert, lookup-insert, lookup-erase, nat_beq, nat_beq_iff, int_beq, int_equality, Bool-cases,
  ◌||◌, not, nat_equality,
}
use deric_rpc.Common.{epoll_failed, close_event, IoMemberError, IoMemberErrorAction}
use deric_rpc.Os.{Kernel}
use deric_rpc.Io.Connection.{Connection}
use deric_rpc.Io.Connection
use deric_rpc.Io.Events.{IoModule}
use deric_rpc.Io.Events.Loop.{EpollEvent, Pending, handle_event}
use deric_rpc.Io.Connection.Preserves.{Keeps, on_read_available-Keeps, on_io_error-Keeps}
use deric_rpc.Serial.{Msgpack}
use deric_rpc.Server.Client.{ClientEntry, IoConnection, stop}
use deric_rpc.Server.Service.{Service, remove_io_connection_client}
use deric_rpc.Server.Handlers
use deric_rpc.Server.Host.{
  Host, connection_object, with_connection, write_back, kernel, entry_data, entry_event, entries,
  read_connection, host_members, on_read_available, on_io_error,
}

-- Two states of a service that agree on all but the client `id`. A client that is listed under `id`
-- has that id.
pub record AgreeBut {V : Type 0} (id : ℕ) (s t : Service V) : Type 0 where
  pub others :
      (other : ℕ) → nat_beq id other ≡ false → lookup other t.clients ≡ lookup other s.clients
  pub numbered : (e : ClientEntry) → lookup id t.clients ≡ some e → e.client_id ≡ id
  pub functions : t.functions ≡ s.functions
  pub state : t.state ≡ s.state
  pub server : t.io_server ≡ s.io_server
  pub serialer : t.has_serialer ≡ s.has_serialer

module _ {V : Type 0} (id : ℕ) (s t : Service V) (a : AgreeBut id s t) where
  remove_io_connection_client-AgreeBut : AgreeBut id s (remove_io_connection_client id t)
  unfolding remove_io_connection_client
  remove_io_connection_client-AgreeBut = record {
    others = λ other ne. ground (arith, ne, a.others other ne, lookup-erase id other t.clients);
    numbered =
        λ e found. absurd (ground (arith, found, lookup-erase id id t.clients, nat_beq_iff id id));
    functions = a.functions;
    state = a.state;
    server = a.server;
    serialer = a.serialer;
  }

  insert-AgreeBut :
      (c : Connection) (e : ClientEntry)
      → e.client_id ≡ id
      → AgreeBut id s (record t { clients = insert id (with_connection c e) t.clients })
  insert-AgreeBut c e numbered = record {
    others = λ other ne.
        ground
          (arith, ne, a.others other ne, lookup-insert id other (with_connection c e) t.clients);
    numbered = λ e' found. ground (
      arith,
      found,
      numbered,
      lookup-insert id id (with_connection c e) t.clients,
      nat_beq_iff id id,
    );
    functions = a.functions;
    state = a.state;
    server = a.server;
    serialer = a.serialer;
  }

-- Two states of a process that agree on all but the client `id`, its member and the world.
abbrev pub UntouchedBut : {V : Type 0} → ℕ → Host V → Host V → Type 0
UntouchedBut id σ τ = AgreeBut id σ.service τ.service × (τ.client_index ≡ σ.client_index)

module _ (mp : Msgpack) {V : Type 0} (os : Kernel V) (id : ℕ) (σ : Host V) where
  entry_data-UntouchedBut :
      (bytes : Option Bytes) (len res : ℤ) (c c' : Connection) (τ τ' : Host V)
      → UntouchedBut id σ τ
      → entry_data mp os id bytes len c τ ≡ some (res, c', τ')
      → UntouchedBut id σ τ'
  unfolding entry_data
  entry_data-UntouchedBut bytes len res c c' τ τ' (a, counter) e =
      let same : (τ.service ≡ τ'.service) × (τ'.client_index ≡ τ.client_index) =
        ground (arith, e) in
      (subst (AgreeBut id σ.service) same.0 a, same.1 ∙ counter)

  stop-client_id :
      (e e₁ : ClientEntry) (m m₁ : IoModule) (w w₁ : V) (res : ℤ)
      → stop os e m w ≡ some (res, e₁, m₁, w₁)
      → e₁.client_id ≡ e.client_id
  unfolding stop
  stop-client_id e e₁ m m₁ w w₁ res stopped = ground (arith, stopped)

  entry_event-UntouchedBut :
      (res : ℤ) (c c' : Connection) (τ τ' : Host V)
      → UntouchedBut id σ τ
      → entry_event mp os id close_event c τ ≡ some (res, c', τ')
      → UntouchedBut id σ τ'
  unfolding entry_event Handlers.handle_event
  entry_event-UntouchedBut res c c' τ τ' (a, counter) e =
      elim (Option-cases (lookup id τ.service.clients)) [
        | inl gone ↦ absurd (ground (arith, e, gone))
        | inr (entry, listed) ↦
            elim (Option-cases (stop os (with_connection c entry) τ.io_module τ.world)) [
              | inl gone ↦ absurd (ground (arith, e, listed, gone))
              | inr ((r, e₁, m₁, w₁), stopped) ↦
                  let kept =
                    stop-client_id (with_connection c entry) e₁ τ.io_module m₁ τ.world w₁ r
                      stopped in
                  let same : (remove_io_connection_client id τ.service ≡ τ'.service)
                      × (τ'.client_index ≡ τ.client_index) =
                    ground (arith, e, listed, stopped, kept, a.numbered entry listed) in
                  (
                    subst (AgreeBut id σ.service) same.0
                        (remove_io_connection_client-AgreeBut id σ.service τ.service a),
                    same.1 ∙ counter,
                  )
            ]
      ]

  pub entries-Keeps : Keeps (kernel os) (entries mp os) (λ c. UntouchedBut id σ) id
  entries-Keeps = record {
    recvs = λ fd n c τ h. h;
    buffers = λ b c τ h. h;
    events = entry_event-UntouchedBut;
    messages = entry_data-UntouchedBut;
  }

  pub write_back-UntouchedBut :
      (c : Connection) (τ : Host V) → UntouchedBut id σ τ → UntouchedBut id σ (write_back id c τ)
  write_back-UntouchedBut c τ (a, counter) = elim (Option-cases (lookup id τ.service.clients)) [
    | inl gone ↦ rw gone (a, counter)
    | inr (entry, listed) ↦
        rw listed
          (insert-AgreeBut id σ.service τ.service a c entry (a.numbered entry listed), counter)
  ]
