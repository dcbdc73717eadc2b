-- ===== src/Rpc/Exchange.antt =====
-- Several requests of one client in turn: the loop of `IoModule::waitThreadFunc` against a
-- description of the exchange that knows nothing of events, buffers and tables.
use deric_rpc.Prelude.{
  ℕ, ◌+◌, ◌^◌, ◌<◌, ℤ, pos, Bytes, length, List, [], ◌∷◌, ◌++◌, ◌≡◌, ◌≢◌, refl, ◌∙◌, false, Option,
  none, some, arith, lookup-insert, nat_equality, int_equality, nat_beq, nat_beq_iff,
  bytes_equality,
}
use deric_rpc.Os.{Kernel}
use deric_rpc.Wire.Header.{tcp_header_size}
use deric_rpc.Io.Connection.{Connection}
use deric_rpc.Io.Connection.Framing.{Delivers, taken, frame}
use deric_rpc.Io.Events.{IoModule, io_module_stop_flag}
use deric_rpc.Io.Events.Loop.{
  EpollEvent, IsReadable, Pending, handle_events, close_members, wait_loop,
}
use deric_rpc.Serial.{Msgpack}
use deric_rpc.Server.Client.{ClientEntry}
use deric_rpc.Server.Service.{Service}
use deric_rpc.Server.Registry.{handle_command}
use deric_rpc.Server.Registry
use deric_rpc.Server.InStep.{Alike}
use deric_rpc.Server.Host.{Host, with_connection, kernel, host_members}
use deric_rpc.Rpc.Round.{IsServing, replied_on, handle_event-answer}

module _ (mp : Msgpack) {V : Type 0} (os : Kernel V) (stream : V → Bytes) (fd : ℕ)
    (s : Service V) where
  -- Requests are taken off the stream in turn; each is answered by the service, and its answer is
  -- sent, before the next is looked at.
  pub data Exchange : List Bytes → V → V → Type 0 where
    done : {w : V} → Exchange [] w w
    next :
        {w w₁ w₂ : V} {messages : List Bytes} {message : Bytes} (reply rest : Bytes) (res : ℤ)
        → message ≢ []
        → length message < 2 ^ 31
        → stream w ≡ frame message ++ rest
        → Registry.handle_data mp s (some message) [] (taken os fd message w) ≡ (res, reply, w₁)
        → reply ≢ []
        → tcp_header_size + length reply < 2 ^ 31
        → Exchange messages (os.send (pos fd) (frame reply) w₁).1 w₂
        → Exchange (message ∷ messages) w w₂

  handle_data-Alike :
      (t : Service V) (message : Option Bytes) (result : Bytes) (w : V)
      → Alike s t
      → Registry.handle_data mp t message result w ≡ Registry.handle_data mp s message result w
  unfolding Registry.handle_data handle_command
  handle_data-Alike t none result w like = refl
  handle_data-Alike t (some m) result w like = rw (like.state, like.serialer, like.functions)

  -- One round of the loop for each request.
  abbrev pub rounds_for : EpollEvent → List Bytes → List (List EpollEvent)
  rounds_for ev [] = []
  rounds_for ev (_ ∷ messages) = (ev ∷ []) ∷ rounds_for ev messages

  replied_on-IsServing :
      (m : IoModule) (σ : Host V) (id : ℕ) (e : ClientEntry) (c : Connection) (reply : Bytes)
      (w : V)
      → IsServing m σ fd id e c
      → let c' = record c { receive_buffer = []; send_buffer = frame reply } in
        IsServing m
          (replied_on reply id e c w (record σ { io_module = m }))
          fd
          id
          (with_connection c' e)
          c'
  replied_on-IsServing m σ id e c reply w h =
      let c' = record c { receive_buffer = []; send_buffer = frame reply } in
      record {
        unlocked = h.unlocked;
        apart = h.apart;
        registered = h.registered;
        listed = ground (
          arith,
          lookup-insert id id (with_connection c' e) σ.service.clients,
          nat_beq_iff id id,
        );
        numbered = h.numbered;
        connected = ground (arith, h.numbered);
        up = h.up;
        opened = h.opened;
        client = h.client;
      }

  module _ (d : Delivers os fd stream) (id : ℕ) (ev : EpollEvent) (r : IsReadable ev (pos fd)) where
    -- The event loop of a service carries out the exchange: given one round with the client's
    -- descriptor readable for each request, it leaves the world as the exchange leaves it, the event
    -- module as it was, and the client connected for the next request. No member was to be closed,
    -- and the stop flag was not read.
    pub wait_loop-Exchange :
        (messages : List Bytes) (e : ClientEntry) (c : Connection) (p : Pending) (m : IoModule)
        (σ : Host V) (w : V)
        → Exchange messages σ.world w
        → Alike s σ.service
        → IsServing m σ fd id e c
        → p.close_fds ≡ []
        → nat_beq p.wakeup_flag io_module_stop_flag ≡ false
        → (σ' : Host V) × (e' : ClientEntry) × (c' : Connection) × (wait_loop
              (kernel os)
              (host_members mp os)
              (rounds_for ev messages)
              p
              m
              σ
            ≡ some (false, m, σ'))
          × (σ'.world ≡ w)
          × IsServing m σ' fd id e' c'
    unfolding wait_loop handle_events close_members
    wait_loop-Exchange [] e c p m σ w done like h closed flag = (σ, e, c, refl, refl, h)
    wait_loop-Exchange (message ∷ messages) e c p m σ w
          (next {w₁ = w₁} reply rest res ne small front answered ne_reply small_reply xs) like h
          closed flag =
        let (run, _) =
          handle_event-answer mp os stream fd d message reply rest res id e c ev p m σ w₁ h r ne
            small front
            (handle_data-Alike σ.service (some message) [] (taken os fd message σ.world) like
              ∙ answered)
            ne_reply small_reply in
        let w₂ = (os.send (pos fd) (frame reply) w₁).1 in
        let σ₂ = replied_on reply id e c w₂ (record σ { io_module = m }) in
        let (σ', e', c', rounds, world, kept) =
          wait_loop-Exchange messages _ _ (record p { close_fds = [] }) m σ₂ w xs
            (record { state = like.state; serialer = like.serialer; functions = like.functions })
            (replied_on-IsServing m σ id e c reply w₂ h) refl flag in
        (σ', e', c', ground (arith, run, rounds, closed, flag), world, kept)
