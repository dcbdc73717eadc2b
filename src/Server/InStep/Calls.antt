-- ===== src/Server/InStep/Calls.antt =====
-- What the calls of a connection keep of a service and its event module:
-- deric_rpc/rpc/server/src/rpc_service_client_entry.cpp, for
-- deric_rpc/io/src/tcp_io_connection.cpp.
use deric_rpc.Prelude.{
  ℕ, ℤ, pos, Bytes, [], ◌≡◌, refl, ◌∙◌, subst, false, Option, some, arith, inl, inr, Option-cases,
  to_int, length, lookup, erase, insert, lookup-erase, lookup-insert, contains-lookup, nat_beq_iff,
  nat_equality, int_equality,
}
use deric_rpc.Common.{close_event}
use deric_rpc.Os.{Kernel}
use deric_rpc.Io.Connection.{Connection, get_fd}
use deric_rpc.Io.Connection
use deric_rpc.Io.Connection.Preserves.{Keeps, send_data-io_client, send_data-socket}
use deric_rpc.Io.Events.{IoModule, remove_io_member}
use deric_rpc.Serial.{Msgpack}
use deric_rpc.Server.Client.{ClientEntry, stop}
use deric_rpc.Server.Service.{Service, remove_io_connection_client}
use deric_rpc.Server.Registry
use deric_rpc.Server.Handlers
use deric_rpc.Server.Host.{
  Host, connection_or, with_connection, write_back, kernel, entry_data, entry_event, entries,
  pointed,
}
use deric_rpc.Server.InStep.{IsOpen, Follows, moved-Follows, remove-InStep, put-InStep}

module _ {V : Type 0} (os : Kernel V) where
  -- A stop of an entry waits for the mutex of the module; where the connection is registered, its
  -- member goes.
  pub stop-erases :
      (id : ℕ) (e e' : ClientEntry) (c : Connection) (m m' : IoModule) (w w' : V) (res : ℤ)
      → IsOpen m id c
      → m.members_locked ≡ false
      → stop os (with_connection c e) m w ≡ some (res, e', m', w')
      → m' ≡ record m { io_members = erase c.socket_fd m.io_members }
  unfolding stop remove_io_member get_fd
  stop-erases id e e' c m m' w w' res h free stopped =
      ground
        (arith, stopped, free, h.opened, h.registered, contains-lookup c.socket_fd m.io_members)

  pub stop-kept :
      (e e' : ClientEntry) (c : Connection) (m m' : IoModule) (w w' : V) (res : ℤ)
      → stop os (with_connection c e) m w ≡ some (res, e', m', w')
      → (m.members_locked ≡ false)
        × (e'.client_id ≡ e.client_id)
        × (m'.wakeup_read_fd ≡ m.wakeup_read_fd)
        × ((connection_or c e'.io_connection).io_client ≡ c.io_client)
  unfolding stop Connection.stop remove_io_member
  stop-kept e e' c m m' w w' res stopped = ground (arith, stopped)

  handle_data-open :
      (mp : Msgpack) (service : Service V) (message : Option Bytes) (e e' : ClientEntry)
      (c : Connection) (w w' : V) (res : ℤ)
      → Handlers.handle_data os mp (some service) message (with_connection c e) w
        ≡ some (res, e', w')
      → let c' = connection_or c e'.io_connection in
        (c'.state ≡ c.state) × (c'.socket_fd ≡ c.socket_fd) × (c'.io_client ≡ c.io_client)
  unfolding Handlers.handle_data Handlers.send_data
  handle_data-open mp service message e e' c w w' res handled =
      let (_, reply, w₁) = Registry.handle_data mp service message [] w in
      elim (Option-cases (Connection.send_data os (some reply) (to_int (length reply)) c w₁)) [
        | inl gone ↦ ground (arith, handled, gone)
        | inr ((r, c', w₂), sent) ↦ ground (
          arith,
          handled,
          sent,
          send_data-io_client os (some reply) (to_int (length reply)) r c c' w₁ w₂ sent,
          send_data-socket os (some reply) (to_int (length reply)) r c c' w₁ w₂ sent,
        )
      ]

module _ {V : Type 0} (s₀ : Service V) (m₀ : IoModule) (id : ℕ) where
  -- What the event thread keeps while it runs a call of the connection of the client `id`, which may
  -- have left the table meanwhile.
  pub record Running (c : Connection) (σ : Host V) : Type 0 where
    pub client : c.io_client ≡ some id
    pub follows : Follows s₀ m₀ σ.service σ.io_module
    pub is_open :
        (e : ClientEntry)
        → σ.io_module.members_locked ≡ false
        → lookup id σ.service.clients ≡ some e
        → IsOpen σ.io_module id c

  pub write_back-Follows :
      (c : Connection) (σ : Host V)
      → Running c σ
      → let τ = write_back id c σ in Follows s₀ m₀ τ.service τ.io_module
  write_back-Follows c σ r = elim (Option-cases (lookup id σ.service.clients)) [
    | inl gone ↦ rw gone r.follows
    | inr (e, listed) ↦ rw listed (record {
      alike = record {
        state = r.follows.alike.state;
        serialer = r.follows.alike.serialer;
        functions = r.follows.alike.functions;
      };
      pipe = r.follows.pipe;
      in_step = λ free.
          let h = r.follows.in_step free in
          let numbered = (h.attended id e listed).numbered in
          put-InStep σ.service σ.io_module h id (with_connection c e)
            (insert id (with_connection c e) σ.service.clients)
            (λ other. lookup-insert id other (with_connection c e) σ.service.clients)
            (record {
              connection = c;
              numbered = numbered;
              connected = ground (arith, numbered);
              client = r.client;
              is_open = r.is_open e free listed;
            });
    })
  ]

  -- The same service, module and socket under other names.
  pub moved-Running :
      (c c' : Connection) (σ σ' : Host V)
      → Running c σ
      → (σ.service ≡ σ'.service) × (σ.io_module ≡ σ'.io_module)
      → (c'.state ≡ c.state) × (c'.socket_fd ≡ c.socket_fd) × (c'.io_client ≡ c.io_client)
      → Running c' σ'
  moved-Running c c' σ σ' r (same_service, same_module) (state, fd, client) = record {
    client = client ∙ r.client;
    follows =
        moved-Follows s₀ m₀ σ.service σ'.service σ.io_module σ'.io_module r.follows same_service
          same_module;
    is_open = λ e free listed.
        let h =
          r.is_open e (ground (arith, free, same_module)) (ground (arith, listed, same_service)) in
        record {
          fd = h.fd;
          up = state ∙ h.up;
          opened = fd ∙ h.opened;
          registered = ground (arith, same_module, h.registered);
        };
  }

  module _ (mp : Msgpack) (os : Kernel V) where
    entry_data-Running :
        (bytes : Option Bytes) (len res : ℤ) (c c' : Connection) (σ σ' : Host V)
        → Running c σ
        → entry_data mp os id bytes len c σ ≡ some (res, c', σ')
        → Running c' σ'
    unfolding entry_data
    entry_data-Running bytes len res c c' σ σ' r e =
        let same : (σ.service ≡ σ'.service) × (σ.io_module ≡ σ'.io_module) = ground (arith, e) in
        elim (Option-cases (lookup id σ.service.clients)) [
          | inl gone ↦ absurd (ground (arith, e, gone))
          | inr (entry, listed) ↦ elim (Option-cases (pointed len bytes)) [
            | inl outside ↦ absurd (ground (arith, e, listed, outside))
            | inr (message, read) ↦
                elim (Option-cases (
                  Handlers.handle_data os mp (some σ.service) message (with_connection c entry)
                    σ.world)) [
                      | inl gone ↦ absurd (ground (arith, e, listed, read, gone))
                      | inr ((n, e₁, w₁), handled) ↦
                          let kept =
                            handle_data-open os mp σ.service message entry e₁ c σ.world w₁ n
                              handled in
                          let there : connection_or c e₁.io_connection ≡ c' =
                            ground (arith, e, listed, read, handled) in
                          moved-Running c c' σ σ' r same (
                            subst
                              (λ (d : Connection).
                                (d.state ≡ c.state)
                                × (d.socket_fd ≡ c.socket_fd)
                                × (d.io_client ≡ c.io_client))
                              there kept)
                    ]
          ]
        ]

    entry_event-Running :
        (res : ℤ) (c c' : Connection) (σ σ' : Host V)
        → Running c σ
        → entry_event mp os id close_event c σ ≡ some (res, c', σ')
        → Running c' σ'
    unfolding entry_event Handlers.handle_event remove_io_connection_client
    entry_event-Running res c c' σ σ' r e = elim (Option-cases (lookup id σ.service.clients)) [
      | inl gone ↦ absurd (ground (arith, e, gone))
      | inr (entry, listed) ↦
          elim (Option-cases (stop os (with_connection c entry) σ.io_module σ.world)) [
            | inl gone ↦ absurd (ground (arith, e, listed, gone))
            | inr ((n, e₁, m₁, w₁), stopped) ↦
                let (free, numbered, pipe, client) =
                  stop-kept os entry e₁ c σ.io_module m₁ σ.world w₁ n stopped in
                let h = r.follows.in_step free in
                let open_ = r.is_open entry free listed in
                let erased =
                  stop-erases os id entry e₁ c σ.io_module m₁ σ.world w₁ n open_ free stopped in
                let ours = (h.attended id entry listed).numbered in
                let s₁ = record σ.service { clients = erase id σ.service.clients } in
                let service : s₁ ≡ σ'.service =
                  ground (arith, e, listed, stopped, numbered, ours) in
                let m₂ = record σ.io_module {
                  io_members = erase (pos open_.fd) σ.io_module.io_members;
                } in
                let module_ : m₂ ≡ σ'.io_module =
                  ground (arith, e, listed, stopped, erased, open_.opened) in
                record {
                  client = ground (arith, e, listed, stopped, client, r.client);
                  follows =
                      moved-Follows s₀ m₀ s₁ σ'.service m₂ σ'.io_module
                        (record {
                          alike = record {
                            state = r.follows.alike.state;
                            serialer = r.follows.alike.serialer;
                            functions = r.follows.alike.functions;
                          };
                          pipe = r.follows.pipe;
                          in_step = λ unlocked.
                              remove-InStep σ.service σ.io_module h id open_.fd open_.registered;
                        })
                        service module_;
                  is_open = λ other unlocked found. absurd (
                      ground (
                        arith,
                        found,
                        service,
                        lookup-erase id id σ.service.clients,
                        nat_beq_iff id id,
                      ));
                }
          ]
    ]

    pub entries-Running : Keeps (kernel os) (entries mp os) Running id
    entries-Running = record {
      recvs = λ fd n c σ h. moved-Running c c σ _ h (refl, refl) (refl, refl, refl);
      buffers = λ b c σ h.
          moved-Running c (record c { receive_buffer = b }) σ σ h (refl, refl) (refl, refl, refl);
      events = entry_event-Running;
      messages = entry_data-Running;
    }
