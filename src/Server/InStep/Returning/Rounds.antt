-- ===== src/Server/InStep/Returning/Rounds.antt =====
-- The rounds of `IoModule::waitThreadFunc`, of deric_rpc/io/src/io_module.cpp, come to a result: no
-- call of the loop waits for the mutex of the members.
use deric_rpc.Prelude.{
  ℕ, zero, suc, ◌^◌, ◌<◌, ℤ, false, List, [], ◌∷◌, ◌≡◌, ◌≢◌, refl, Option, none, some, arith, inl,
  inr, Option-cases, lookup, nat_equality, int_equality,
}
use deric_rpc.Common.{epoll_failed}
use deric_rpc.Os.{Kernel}
use deric_rpc.Io.Connection
use deric_rpc.Io.Connection.Safety.{GivesAtMost, on_read_available_total}
use deric_rpc.Io.Events.{IoModule, add_io_member, remove_io_member}
use deric_rpc.Io.Events.Loop.{
  EpollEvent, Pending, handle_event, handle_events, close_members, wait_loop,
}
use deric_rpc.Io.Server.{TcpIoServer}
use deric_rpc.Io.Server
use deric_rpc.Serial.{Msgpack}
use deric_rpc.Server.Client.{ClientEntry}
use deric_rpc.Server.Client
use deric_rpc.Server.Service.{Service, get_new_client_id, create_io_connection_client}
use deric_rpc.Server.Accept.{on_connect_request}
use deric_rpc.Server.Host.{
  Host, connection_object, kernel, entries, held, service_lives, read_connection, read_server,
  fail_server, fail_connection, on_read_available, on_io_error, host_members,
}
use deric_rpc.Server.InStep.{InStep, Follows}
use deric_rpc.Server.InStep.Rounds.{handle_event-Follows, handle_events-Follows}
use deric_rpc.Server.InStep.Guarded.{Descriptors, Harmless, Guarded}
use deric_rpc.Server.InStep.Guarded.Rounds.{handle_event-Guarded, handle_events-Guarded}
use deric_rpc.Server.InStep.Returning.{Brief, Alike-Brief, entry_event_total, entries-Returns}

module _ {V : Type 0} (os : Kernel V) where
  on_connect_request_total :
      (id object index : ℕ) (server : TcpIoServer) (s : Service V) (m : IoModule) (w : V)
      → m.members_locked ≡ false
      → on_connect_request os held service_lives id object index server s m w ≢ none
  unfolding on_connect_request create_io_connection_client Client.start add_io_member
  on_connect_request_total id object index server s m w free = ground (arith, free)

  on_io_error_total :
      (t : TcpIoServer) (m : IoModule) (w : V)
      → m.members_locked ≡ false
      → Server.on_io_error os t m w ≢ none
  unfolding Server.on_io_error Server.stop remove_io_member
  on_io_error_total t m w free = ground (arith, free)

module _ (mp : Msgpack) {V : Type 0} (os : Kernel V) where
  read_server_total :
      (server : Option TcpIoServer) (σ : Host V)
      → σ.io_module.members_locked ≡ false
      → read_server mp os server σ ≢ none
  unfolding read_server
  read_server_total none σ free = ground arith
  read_server_total (some server) σ free =
      let id = get_new_client_id σ.client_index in
      ground (
        arith,
        on_connect_request_total os id (connection_object id) σ.client_index server σ.service
            σ.io_module σ.world free,
      )

  fail_server_total :
      (server : Option TcpIoServer) (σ : Host V)
      → σ.io_module.members_locked ≡ false
      → fail_server mp os server σ ≢ none
  unfolding fail_server
  fail_server_total none σ free = ground arith
  fail_server_total (some t) σ free =
      ground (arith, on_io_error_total os t σ.io_module σ.world free)

  module _ (size : ℕ) (small : size < 2 ^ 31) (most : GivesAtMost os size) where
    most_hosted : GivesAtMost (kernel os) size
    most_hosted fd n σ bytes got = most fd n σ.world bytes got

    handle_read_total :
        (object : ℕ) (σ : Host V)
        → σ.io_module.members_locked ≡ false
        → InStep σ.service σ.io_module
        → Brief mp size σ.service
        → on_read_available mp os object σ ≢ none
    unfolding on_read_available read_connection
    handle_read_total zero σ free h brief = read_server_total σ.service.io_server σ free
    handle_read_total (suc id) σ free h brief = elim (Option-cases (lookup id σ.service.clients)) [
      | inl gone ↦ ground (arith, gone)
      | inr (e, listed) ↦
          let a = h.attended id e listed in
          ground (
            arith,
            listed,
            a.connected,
            on_read_available_total (kernel os) (entries mp os) size _ id
                (entries-Returns mp os size id) small most_hosted a.connection σ a.client
                (record { entry = e; listed = listed; free = free; brief = brief }),
          )
    ]

    handle_error_total :
        (object : ℕ) (σ : Host V)
        → σ.io_module.members_locked ≡ false
        → InStep σ.service σ.io_module
        → Brief mp size σ.service
        → on_io_error mp os object epoll_failed σ ≢ none
    unfolding on_io_error fail_connection Connection.on_io_error
    handle_error_total zero σ free h brief = fail_server_total σ.service.io_server σ free
    handle_error_total (suc id) σ free h brief = elim (Option-cases (lookup id σ.service.clients)) [
      | inl gone ↦ ground (arith, gone)
      | inr (e, listed) ↦
          let a = h.attended id e listed in
          ground (
            arith,
            listed,
            a.connected,
            a.client,
            entry_event_total mp os size id a.connection σ
                (record { entry = e; listed = listed; free = free; brief = brief }),
          )
    ]

    handle_event_total :
        (ev : EpollEvent) (p : Pending) (m : IoModule) (σ : Host V)
        → m.members_locked ≡ false
        → InStep σ.service m
        → Brief mp size σ.service
        → handle_event (kernel os) (host_members mp os) ev p m σ ≢ none
    unfolding handle_event
    handle_event_total ev p m σ free h brief =
        let τ : Host V = record σ { io_module = m } in
        elim (Option-cases (lookup ev.fd m.io_members)) [
          | inl missing ↦ ground (arith, free, missing)
          | inr (object, member) ↦ ground (
            arith,
            free,
            member,
            handle_error_total object τ free h brief,
            handle_read_total object τ free h brief,
          )
        ]

    module _ (InUse : ℤ → V → Type 0) (ds : Descriptors os InUse) (s₀ : Service V) (m₀ : IoModule)
        (harmless : Harmless InUse s₀) (brief : Brief mp size s₀) where
      handle_events_total :
          (evs : List EpollEvent) (p : Pending) (m : IoModule) (σ : Host V)
          → p.close_fds ≡ []
          → Follows s₀ m₀ σ.service m
          → Guarded InUse σ.service m σ.world
          → handle_events (kernel os) (host_members mp os) evs p m σ ≢ none
      unfolding handle_events
      handle_events_total [] p m σ empty h g = ground arith
      handle_events_total (ev ∷ evs) p m σ empty h g =
          elim (Option-cases (handle_event (kernel os) (host_members mp os) ev p m σ)) [
            | inl gone ↦ absurd (
                handle_event_total ev p m σ g.free (h.in_step g.free)
                  (Alike-Brief mp size s₀ σ.service h.alike brief) gone)
            | inr ((p₁, m₁, τ), first) ↦
                let (empty₁, h₁) =
                  handle_event-Follows mp os s₀ m₀ ev p p₁ m m₁ σ τ empty h first in
                let g₁ =
                  handle_event-Guarded mp os InUse ds s₀ m₀ harmless ev p p₁ m m₁ σ τ h g first in
                ground (arith, first, handle_events_total evs p₁ m₁ τ empty₁ h₁ g₁)
          ]

      -- Any rounds come to a result, behind what the process has come from.
      pub wait_loop_total :
          (rounds : List (List EpollEvent)) (p : Pending) (m : IoModule) (σ : Host V)
          → p.close_fds ≡ []
          → Follows s₀ m₀ σ.service m
          → Guarded InUse σ.service m σ.world
          → wait_loop (kernel os) (host_members mp os) rounds p m σ ≢ none
      unfolding wait_loop close_members
      wait_loop_total [] p m σ empty h g = ground arith
      wait_loop_total (evs ∷ rounds) p m σ empty h g =
          elim (Option-cases (handle_events (kernel os) (host_members mp os) evs p m σ)) [
            | inl gone ↦ absurd (handle_events_total evs p m σ empty h g gone)
            | inr ((p₁, m₁, τ), handled) ↦
                let (empty₁, h₁) =
                  handle_events-Follows mp os s₀ m₀ evs p p₁ m m₁ σ τ empty h handled in
                let g₁ =
                  handle_events-Guarded mp os InUse ds s₀ m₀ harmless evs p p₁ m m₁ σ τ empty h g
                    handled in
                let rest = wait_loop_total rounds (record p₁ { close_fds = [] }) m₁ τ refl h₁ g₁ in
                ground (arith, handled, empty₁, rest)
          ]
