-- ===== src/Rpc/Remote.antt =====
-- A whole remote call: the request frame that arrives at the service, and the reply frame that arrives
-- at the client.
use deric_rpc.Prelude.{
  ℕ, ◌+◌, ◌^◌, ◌<◌, ℤ, pos, Bytes, length, [], ◌∷◌, ◌++◌, ◌≡◌, refl, true, some, arith, lookup,
  lookup-insert, contains, bytes_equality, int_equality, int_beq_iff,
}
use deric_rpc.Common.{started}
use deric_rpc.Os.{Kernel}
use deric_rpc.Wire.Header.{tcp_header_size}
use deric_rpc.Io.Connection.{Connection}
use deric_rpc.Io.Connection.Framing.{Delivers, taken, frame}
use deric_rpc.Io.Events.{IoModule}
use deric_rpc.Io.Events.Loop.{EpollEvent, IsReadable, Pending, handle_event}
use deric_rpc.Serial.{Msgpack, Packing, get_message_data}
use deric_rpc.Serial.Laws.{RoundTrips}
use deric_rpc.Function.{FunctionHelper, exec_result}
use deric_rpc.Server.Client.{ClientEntry}
use deric_rpc.Server.Service.{Service}
use deric_rpc.Server
use deric_rpc.Server.Host.{Host, host_members}
use deric_rpc.Client.Impl.{ClientImpl}
use deric_rpc.Client.Entry.{request}
use deric_rpc.Client
use deric_rpc.Client.Host.{ClientHost, client_members}
use deric_rpc.Rpc.Messages.{reply_with, reply_of_result, reply_with-not_empty, request-not_empty}
use deric_rpc.Rpc.Call.{handle_data-found}
use deric_rpc.Rpc.Round.{IsServing, handle_event-answer}
use deric_rpc.Rpc.Delivery.{IsCalling, handle_event-reply}

-- A started service has the function under the name.
pub record Provides (mp : Msgpack) {W A R : Type 0} (p : Packing mp.Object A)
    (q : Packing mp.Object R) (func : A → W → R × W) (name : Bytes) (s : Service W) : Type 0 where
  pub helper : FunctionHelper
  pub up : s.state ≡ started
  pub serialer : s.has_serialer ≡ true
  pub helped : helper.has_serialer ≡ true
  pub found : lookup name s.functions ≡ some (exec_result mp p q helper func)

-- What msgpack promises for the types of a call.
pub record Packs (mp : Msgpack) {A R : Type 0} (p : Packing mp.Object A) (q : Packing mp.Object R)
    : Type 0 where
  pub ints : RoundTrips mp mp.ints
  pub strings : RoundTrips mp mp.strings
  pub arguments : RoundTrips mp p
  pub results : RoundTrips mp q

module _ (mp : Msgpack) {V A R : Type 0} (os : Kernel V) (p : Packing mp.Object A)
    (q : Packing mp.Object R) (func : A → V → R × V) (name : Bytes) (msg_id : ℤ) (a : A) where
  -- A local call in the world behind the arrival of the request: its result, and the world that it
  -- leaves.
  abbrev pub local_call : ℕ → V → R × V
  local_call fd w = func a (taken os fd (request mp p name msg_id a) w)

  -- The event thread of the service turns the request at the front of a client's stream into the
  -- reply with the result of a local call.
  pub handle_event-call :
      (stream : V → Bytes) (fd id : ℕ) (rest : Bytes) (e : ClientEntry) (c : Connection)
      (ev : EpollEvent) (pending : Pending) (m : IoModule) (σ : Host V)
      → Delivers os fd stream
      → Packs mp p q
      → Provides mp p q func name σ.service
      → IsServing m σ fd id e c
      → IsReadable ev (pos fd)
      → length (request mp p name msg_id a) < 2 ^ 31
      → stream σ.world ≡ frame (request mp p name msg_id a) ++ rest
      → tcp_header_size + length (reply_with mp q name msg_id (local_call fd σ.world).0) < 2 ^ 31
      → let (result, w) = local_call fd σ.world in
        let reply = reply_with mp q name msg_id result in
        (σ' : Host V) × (handle_event (Server.Host.kernel os) (host_members mp os) ev pending m σ
          ≡ some (pending, m, σ'))
        × (σ'.world ≡ (os.send (pos fd) (frame reply) w).1)
        × (σ'.service.functions ≡ σ.service.functions)
  handle_event-call stream fd id rest e c ev pending m σ d law f s r small front small_reply =
      let req = request mp p name msg_id a in
      let (result, w) = local_call fd σ.world in
      let reply = reply_with mp q name msg_id result in
      let answered =
        handle_data-found mp p q σ.service f.helper func name msg_id a (taken os fd req σ.world)
          law.ints law.strings law.arguments f.up f.serialer f.helped f.found in
      let (run, _) =
        handle_event-answer mp os stream fd d req reply rest (pos 0) id e c ev pending m σ w s r
          (request-not_empty mp p name msg_id a law.ints) small front answered
          (reply_with-not_empty mp q name msg_id result law.ints) small_reply in
      (_, run, refl, refl)

module _ (mp : Msgpack) {V U A R : Type 0} (os : Kernel V) (client_os : Kernel U)
    (p : Packing mp.Object A) (q : Packing mp.Object R) (func : A → V → R × V) (name : Bytes)
    (msg_id : ℤ) (a : A) where
  -- A remote call is a local call on the service's side. When the service's event thread finds the
  -- client's request at the front of its stream, it runs the function once and sends one frame;
  -- when that frame is at the front of the client's stream, the client's event thread stores the
  -- message in the waiting item of the call and wakes its caller, and what the caller reads from
  -- it is the result that the local call gave. The function is in the table of the started
  -- service, both connections are up, the item waits, and both messages fit an `int`.
  pub remote_call :
      (stream : V → Bytes) (fd id : ℕ) (rest : Bytes) (e : ClientEntry) (c : Connection)
      (ev : EpollEvent) (pending : Pending) (m : IoModule) (σ : Host V) (client_stream : U → Bytes)
      (client_fd self object : ℕ) (client_rest : Bytes) (impl : ClientImpl) (client_c : Connection)
      (client_ev : EpollEvent) (client_pending : Pending) (client_m : IoModule) (τ : ClientHost U)
      → Delivers os fd stream
      → Delivers client_os client_fd client_stream
      → Packs mp p q
      → Provides mp p q func name σ.service
      → IsServing m σ fd id e c
      → IsCalling client_m τ client_fd self object impl client_c
      → IsReadable ev (pos fd)
      → IsReadable client_ev (pos client_fd)
      → contains msg_id τ.client.waiting_items ≡ true
      → length (request mp p name msg_id a) < 2 ^ 31
      → tcp_header_size
          + length
              (reply_with mp q name msg_id (local_call mp os p q func name msg_id a fd σ.world).0)
        < 2 ^ 31
      → stream σ.world ≡ frame (request mp p name msg_id a) ++ rest
      → client_stream τ.world
        ≡ frame (reply_with mp q name msg_id (local_call mp os p q func name msg_id a fd σ.world).0)
          ++ client_rest
      → let (result, w) = local_call mp os p q func name msg_id a fd σ.world in
        let reply = reply_with mp q name msg_id result in
        (σ' : Host V) × (τ' : ClientHost U) × (handle_event
            (Server.Host.kernel os)
            (host_members mp os)
            ev
            pending
            m
            σ
          ≡ some (pending, m, σ'))
        × (σ'.world ≡ (os.send (pos fd) (frame reply) w).1)
        × (handle_event
              (Client.Host.kernel client_os)
              (client_members mp client_os)
              client_ev
              client_pending
              client_m
              τ
            ≡ some (client_pending, client_m, τ'))
        × (τ'.notified ≡ τ.notified ++ msg_id ∷ [])
        × (lookup msg_id τ'.client.waiting_items ≡ some reply)
        × (get_message_data mp q reply ≡ result)
  remote_call stream fd id rest e c ev pending m σ client_stream client_fd self object client_rest
        impl client_c client_ev client_pending client_m τ d client_d law f s t r client_r waits
        small small_reply front client_front =
      let (result, w) = local_call mp os p q func name msg_id a fd σ.world in
      let reply = reply_with mp q name msg_id result in
      let (σ', served, world, _) =
        handle_event-call mp os p q func name msg_id a stream fd id rest e c ev pending m σ d law f
          s r small front small_reply in
      let (is_reply, of_call, value) =
        reply_of_result mp q name msg_id result law.ints law.strings law.results in
      let (stored, _) =
        handle_event-reply mp client_os client_stream client_fd client_d reply client_rest msg_id
          self object impl client_c client_ev client_pending client_m τ t client_r
          (reply_with-not_empty mp q name msg_id result law.ints) (omega arith) client_front
          (is_reply, of_call) waits in
      (
        σ',
        _,
        served,
        world,
        stored,
        refl,
        ground (
          arith,
          lookup-insert msg_id msg_id reply τ.client.waiting_items,
          int_beq_iff msg_id msg_id,
        ),
        value,
      )
