-- ===== src/Server/InStep/Returning.antt =====
-- The handlers of a client's connection come to a result: deric_rpc/rpc/server/src/rpc_service_client_entry.cpp,
-- where the mutex of the members is free and a reply fits an `int`.
pub mod Rounds
use deric_rpc.Prelude.{
  ℕ, ℤ, pos, ◌+◌, ◌^◌, ◌<◌, ◌≤◌, Bytes, [], ◌∷◌, take, length, to_int, to_int_small, ◌≡◌, ◌≢◌, refl,
  false, Option, none, some, inl, inr, arith, Option-cases, lookup, nat_equality, length-take-min,
}
use deric_rpc.Common.{close_event}
use deric_rpc.Os.{Kernel}
use deric_rpc.Wire.Header.{tcp_header_size}
use deric_rpc.Io.Connection.{Connection}
use deric_rpc.Io.Connection
use deric_rpc.Io.Connection.Framing.{send_data_total}
use deric_rpc.Io.Connection.Safety.{Returns}
use deric_rpc.Io.Events.{IoModule, remove_io_member}
use deric_rpc.Serial.{Msgpack}
use deric_rpc.Server.Client.{ClientEntry, stop}
use deric_rpc.Server.Service.{Service}
use deric_rpc.Server.Registry.{handle_data, handle_command}
use deric_rpc.Server.Handlers
use deric_rpc.Server.Host.{Host, with_connection, kernel, entry_data, entry_event, entries}
use deric_rpc.Server.InStep.{Alike}

-- The reply to any message of no more than `size` bytes fits an `int`, with its header.
abbrev pub Brief : {V : Type 0} → Msgpack → ℕ → Service V → Type 0
Brief {V} mp size s =
    (message : Bytes) (w : V)
    → length message ≤ size
    → tcp_header_size + length (handle_data mp s (some message) [] w).1 < 2 ^ 31

pub Alike-Brief :
    {V : Type 0} (mp : Msgpack) (size : ℕ) (s t : Service V)
    → Alike s t
    → Brief mp size s
    → Brief mp size t
unfolding handle_data handle_command
Alike-Brief mp size s t like brief message w fits =
    rw (like.state, like.serialer, like.functions) (brief message w fits)

module _ (mp : Msgpack) {V : Type 0} (os : Kernel V) (size id : ℕ) where
  -- The client is listed, the mutex of the members is free, and the replies are brief.
  pub record Serves (c : Connection) (σ : Host V) : Type 0 where
    pub entry : ClientEntry
    pub listed : lookup id σ.service.clients ≡ some entry
    pub free : σ.io_module.members_locked ≡ false
    pub brief : Brief mp size σ.service

  pub entry_event_total :
      (c : Connection) (σ : Host V) → Serves c σ → entry_event mp os id close_event c σ ≢ none
  unfolding entry_event Handlers.handle_event stop remove_io_member
  entry_event_total c σ h = ground (arith, h.listed, h.free)

  handle_data_total :
      (message : Bytes) (c : Connection) (e : ClientEntry) (s : Service V) (w : V)
      → length message ≤ size
      → Brief mp size s
      → Handlers.handle_data os mp (some s) (some message) (with_connection c e) w ≢ none
  unfolding Handlers.handle_data Handlers.send_data
  handle_data_total message c e s w fits brief =
      let (_, reply, w₁) = handle_data mp s (some message) [] w in
      ground (arith, send_data_total os reply c w₁ (brief message w fits))

  entry_data_total :
      (bytes : Bytes) (n : ℕ) (c : Connection) (σ : Host V)
      → Serves c σ
      → n ≤ size
      → entry_data mp os id (some bytes) (pos n) c σ ≢ none
  unfolding entry_data
  entry_data_total bytes n c σ h fits =
      let message = take n bytes in
      let short : length message ≤ size = omega (arith, length-take-min n bytes) in
      ground (arith, h.listed, handle_data_total message c h.entry σ.service σ.world short h.brief)

  pub entries-Returns : Returns (kernel os) (entries mp os) size Serves id
  entries-Returns = record {
    recvs =
        λ fd n c σ h. record { entry = h.entry; listed = h.listed; free = h.free; brief = h.brief };
    buffers =
        λ b c σ h. record { entry = h.entry; listed = h.listed; free = h.free; brief = h.brief };
    event = entry_event_total;
    message = entry_data_total;
  }
