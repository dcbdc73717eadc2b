-- ===== src/Server/InStep/Guarded/Calls.antt =====
-- The descriptors in use behind the calls of a connection's client entry:
-- deric_rpc/rpc/server/src/rpc_service_client_entry.cpp and what it calls.
use deric_rpc.Prelude.{
  ℕ, ℤ, Bytes, [], ◌≡◌, ◌⊎◌, refl, sym, subst, false, true, Option, none, some, arith, inl, inr,
  Option-cases, to_int, length, lookup, erase, lookup-erase, contains, contains-lookup, int_beq,
  int_equality, nat_equality, bytes_equality,
}
use deric_rpc.Common.{close_event}
use deric_rpc.Os.{Kernel, EpollOp, epoll_del}
use deric_rpc.Io.Connection.{Connection, get_fd}
use deric_rpc.Io.Connection
use deric_rpc.Io.Connection.Preserves.{Keeps, send_data-world}
use deric_rpc.Io.Events.{IoModule, remove_io_member, modify_epoll_event}
use deric_rpc.Serial.{Msgpack, get_message_name, get_message_id, serial_message_meta}
use deric_rpc.Server.Client.{ClientEntry, stop}
use deric_rpc.Server.Service.{Service, remove_io_connection_client}
use deric_rpc.Server.Registry.{handle_command, handle_data, handle_register, message_type_replay}
use deric_rpc.Server.Registry.Methods.{handle_command-lookup}
use deric_rpc.Server.Handlers
use deric_rpc.Server.Host.{
  Host, with_connection, write_back, kernel, entry_data, entry_event, entries, pointed,
}
use deric_rpc.Server.InStep.{Follows}
use deric_rpc.Server.InStep.Calls.{Running, entries-Running, stop-erases}
use deric_rpc.Server.InStep.Guarded.{Descriptors, Harmless, Guarded, moved-Guarded, later-Guarded}

module _ (mp : Msgpack) {V : Type 0} (InUse : ℤ → V → Type 0) (s : Service V)
    (h : Harmless InUse s) where
  handle_command-InUse :
      (name request result_string : Bytes) (d : ℤ) (w : V)
      → InUse d w
      → InUse d (handle_command name s request result_string w).2
  handle_command-InUse name request result_string d w u =
      elim (Option-cases (lookup name s.functions)) [
        | inl missing ↦
            subst (λ (r : ℤ × Bytes × V). InUse d r.2)
              (sym (handle_command-lookup name request result_string s w none missing)) u
        | inr (f, found) ↦
            subst (λ (r : ℤ × Bytes × V). InUse d r.2)
              (sym (handle_command-lookup name request result_string s w (some f) found))
              (h name request result_string f d w found u)
      ]

  pub handle_data-InUse :
      (message : Option Bytes) (result_string : Bytes) (d : ℤ) (w : V)
      → InUse d w
      → InUse d (handle_data mp s message result_string w).2
  unfolding handle_data handle_register
  handle_data-InUse none result_string d w u = u
  handle_data-InUse (some message) result_string d w u =
      let name = get_message_name mp message in
      let begun =
        (serial_message_meta mp message_type_replay name (get_message_id mp message)
          result_string).1 in
      let after = (handle_data mp s (some message) result_string w).2 in
      let ways : (w ≡ after) ⊎ ((handle_command name s message begun w).2 ≡ after) = ground arith in
      elim ways [
        | inl same ↦ subst (InUse d) same u
        | inr ran ↦ subst (InUse d) ran (handle_command-InUse name message begun d w u)
      ]

module _ {V : Type 0} (os : Kernel V) (InUse : ℤ → V → Type 0) (ds : Descriptors os InUse) where
  send_data-InUse :
      (bytes : Option Bytes) (len res : ℤ) (c c' : Connection) (d : ℤ) (w w' : V)
      → Connection.send_data os bytes len c w ≡ some (res, c', w')
      → InUse d w
      → InUse d w'
  send_data-InUse bytes len res c c' d w w' e u =
      elim (send_data-world os bytes len res c c' w w' e) [
        | inl same ↦ subst (InUse d) same u
        | inr sent ↦ subst (InUse d) sent (ds.send c'.socket_fd c'.send_buffer d w u)
      ]

  pub modify_epoll_event-InUse :
      (op : EpollOp) (fd d : ℤ) (m : IoModule) (w : V)
      → InUse d w
      → InUse d (modify_epoll_event os op fd m w).1
  unfolding modify_epoll_event
  modify_epoll_event-InUse op fd d m w u =
      let after = (modify_epoll_event os op fd m w).1 in
      let ways : (w ≡ after) ⊎ ((os.epoll_ctl op m.epoll_fd fd w).1 ≡ after) = ground arith in
      elim ways [
        | inl same ↦ subst (InUse d) same u
        | inr done ↦ subst (InUse d) done (ds.epoll_ctl op m.epoll_fd fd d w u)
      ]

  -- A stop of a registered connection ends no descriptor but its own.
  stop-InUse :
      (id : ℕ) (e e' : ClientEntry) (c : Connection) (m m' : IoModule) (d : ℤ) (w w' : V) (res : ℤ)
      → contains c.socket_fd m.io_members ≡ true
      → stop os (with_connection c e) m w ≡ some (res, e', m', w')
      → int_beq c.socket_fd d ≡ false
      → InUse d w
      → InUse d w'
  unfolding stop remove_io_member get_fd Connection.stop
  stop-InUse id e e' c m m' d w w' res used stopped apart u =
      let gone = record m { io_members = erase c.socket_fd m.io_members } in
      let w₁ = (modify_epoll_event os epoll_del c.socket_fd gone w).1 in
      let ways : (w₁ ≡ w') ⊎ (os.close c.socket_fd w₁ ≡ w') = ground (arith, used, stopped) in
      let u₁ = modify_epoll_event-InUse epoll_del c.socket_fd d gone w u in
      elim ways [
        | inl same ↦ subst (InUse d) same u₁
        | inr closed ↦ subst (InUse d) closed (ds.close c.socket_fd d w₁ apart u₁)
      ]

  handle_data-entry_InUse :
      (mp : Msgpack) (service : Service V) (message : Option Bytes) (e e' : ClientEntry)
      (c : Connection) (d : ℤ) (w w' : V) (res : ℤ)
      → Harmless InUse service
      → Handlers.handle_data os mp (some service) message (with_connection c e) w
        ≡ some (res, e', w')
      → InUse d w
      → InUse d w'
  unfolding Handlers.handle_data Handlers.send_data
  handle_data-entry_InUse mp service message e e' c d w w' res h handled u =
      let (_, reply, w₁) = handle_data mp service message [] w in
      let u₁ = handle_data-InUse mp InUse service h message [] d w u in
      elim (Option-cases (Connection.send_data os (some reply) (to_int (length reply)) c w₁)) [
        | inl gone ↦ let same : w₁ ≡ w' = ground (arith, handled, gone) in subst (InUse d) same u₁
        | inr ((r, c', w₂), sent) ↦
            let u₂ = send_data-InUse (some reply) (to_int (length reply)) r c c' d w₁ w₂ sent u₁ in
            let ways : (w₁ ≡ w') ⊎ (w₂ ≡ w') = ground (arith, handled, sent) in
            elim ways [ inl same ↦ subst (InUse d) same u₁ | inr same ↦ subst (InUse d) same u₂ ]
      ]

module _ (mp : Msgpack) {V : Type 0} (os : Kernel V) (InUse : ℤ → V → Type 0)
    (ds : Descriptors os InUse) (s₀ : Service V) (m₀ : IoModule) (harmless : Harmless InUse s₀)
    (id : ℕ) where
  -- What the event thread keeps during a call of the connection of the client `id`.
  abbrev pub Guards : Connection → Host V → Type 0
  Guards c σ = Running s₀ m₀ id c σ × Guarded InUse σ.service σ.io_module σ.world

  pub Follows-Harmless : (s : Service V) (m : IoModule) → Follows s₀ m₀ s m → Harmless InUse s
  Follows-Harmless s m h name request result_string f d w found u =
      harmless name request result_string f d w (ground (arith, found, h.alike.functions)) u

  entry_data-InUse :
      (bytes : Option Bytes) (len res d : ℤ) (c c' : Connection) (σ σ' : Host V)
      → Harmless InUse σ.service
      → entry_data mp os id bytes len c σ ≡ some (res, c', σ')
      → InUse d σ.world
      → InUse d σ'.world
  unfolding entry_data
  entry_data-InUse bytes len res d c c' σ σ' h e u =
      elim (Option-cases (lookup id σ.service.clients)) [
        | inl gone ↦ absurd (ground (arith, e, gone))
        | inr (entry, listed) ↦ elim (Option-cases (pointed len bytes)) [
          | inl outside ↦ absurd (ground (arith, e, listed, outside))
          | inr (message, read) ↦
              elim (Option-cases (
                Handlers.handle_data os mp (some σ.service) message (with_connection c entry)
                  σ.world)) [
                    | inl gone ↦ absurd (ground (arith, e, listed, read, gone))
                    | inr ((n, e₁, w₁), handled) ↦
                        let world : w₁ ≡ σ'.world = ground (arith, e, listed, read, handled) in
                        subst (InUse d) world (
                          handle_data-entry_InUse os InUse ds mp σ.service message entry e₁ c d
                            σ.world w₁ n h handled u)
                  ]
        ]
      ]

  entry_data-Guarded :
      (bytes : Option Bytes) (len res : ℤ) (c c' : Connection) (σ σ' : Host V)
      → Guards c σ
      → entry_data mp os id bytes len c σ ≡ some (res, c', σ')
      → Guarded InUse σ'.service σ'.io_module σ'.world
  unfolding entry_data
  entry_data-Guarded bytes len res c c' σ σ' (r, g) e =
      let same : (σ.service ≡ σ'.service) × (σ.io_module ≡ σ'.io_module) = ground (arith, e) in
      let h = Follows-Harmless σ.service σ.io_module r.follows in
      moved-Guarded InUse σ.service σ'.service σ.io_module σ'.io_module σ'.world σ'.world
        (later-Guarded InUse σ.service σ.io_module σ.world σ'.world
          (λ d u. entry_data-InUse bytes len res d c c' σ σ' h e u) g)
        same.0 same.1 refl

  entry_event-Guarded :
      (res : ℤ) (c c' : Connection) (σ σ' : Host V)
      → Guards c σ
      → entry_event mp os id close_event c σ ≡ some (res, c', σ')
      → Guarded InUse σ'.service σ'.io_module σ'.world
  unfolding entry_event Handlers.handle_event remove_io_connection_client
  entry_event-Guarded res c c' σ σ' (r, g) e = elim (Option-cases (lookup id σ.service.clients)) [
    | inl gone ↦ absurd (ground (arith, e, gone))
    | inr (entry, listed) ↦
        elim (Option-cases (stop os (with_connection c entry) σ.io_module σ.world)) [
          | inl gone ↦ absurd (ground (arith, e, listed, gone))
          | inr ((n, e₁, m₁, w₁), stopped) ↦
              let o = r.is_open entry g.free listed in
              let used : contains c.socket_fd σ.io_module.io_members ≡ true = ground (
                arith,
                o.opened,
                o.registered,
                contains-lookup c.socket_fd σ.io_module.io_members,
              ) in
              let erased =
                stop-erases os id entry e₁ c σ.io_module m₁ σ.world w₁ n o g.free stopped in
              let s₁ = record σ.service { clients = erase e₁.client_id σ.service.clients } in
              let m₂ = record σ.io_module {
                io_members = erase c.socket_fd σ.io_module.io_members;
              } in
              let service : s₁ ≡ σ'.service = ground (arith, e, listed, stopped) in
              let module_ : m₂ ≡ σ'.io_module = ground (arith, e, listed, stopped, erased) in
              let world : w₁ ≡ σ'.world = ground (arith, e, listed, stopped) in
              moved-Guarded InUse s₁ σ'.service m₂ σ'.io_module w₁ σ'.world
                (record {
                  free = g.free;
                  in_use = λ d object found.
                      stop-InUse os InUse ds id entry e₁ c σ.io_module m₁ d σ.world w₁ n used
                        stopped
                        (ground (arith, found, lookup-erase c.socket_fd d σ.io_module.io_members))
                        (g.in_use d object (
                          ground
                            (arith, found, lookup-erase c.socket_fd d σ.io_module.io_members)));
                  server = g.server;
                })
                service module_ world
        ]
  ]

  pub entries-Guards : Keeps (kernel os) (entries mp os) Guards id
  entries-Guards =
      let k = entries-Running s₀ m₀ id mp os in
      record {
        recvs = λ fd n c σ (r, g). (
          k.recvs fd n c σ r,
          later-Guarded InUse σ.service σ.io_module σ.world (os.recv fd n σ.world).1
              (λ d u. ds.recv fd n d σ.world u) g,
        );
        buffers = λ b c σ (r, g). (k.buffers b c σ r, g);
        events = λ res c c' σ σ' h e.
            (k.events res c c' σ σ' h.0 e, entry_event-Guarded res c c' σ σ' h e);
        messages = λ bytes len res c c' σ σ' h e. (
          k.messages bytes len res c c' σ σ' h.0 e,
          entry_data-Guarded bytes len res c c' σ σ' h e,
        );
      }

  pub write_back-Guarded :
      (c : Connection) (σ : Host V)
      → Guarded InUse σ.service σ.io_module σ.world
      → let τ = write_back id c σ in Guarded InUse τ.service τ.io_module τ.world
  write_back-Guarded c σ g = elim (Option-cases (lookup id σ.service.clients)) [
    | inl gone ↦ rw gone g
    | inr (e, listed) ↦ rw listed (record { free = g.free; in_use = g.in_use; server = g.server })
  ]
