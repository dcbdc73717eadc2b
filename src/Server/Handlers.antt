-- ===== src/Server/Handlers.antt =====
-- RpcServiceClientEntry: deric_rpc/rpc/server/src/rpc_service_client_entry.cpp, its three handlers of
-- messages. The service is what `m_serviceImpl.lock()` gives.
use deric_rpc.Prelude.{
  Bytes, length, [], Option, none, some, ◌>>=◌, ℤ, pos, failure, success, to_int, int_beq,
  if◌then◌else◌,
}
use deric_rpc.Common.{IoConnectionEvent, close_event}
use deric_rpc.Os.{Kernel}
use deric_rpc.Io.Connection
use deric_rpc.Io.Events.{IoModule}
use deric_rpc.Serial.{Msgpack}
use deric_rpc.Server.Client.{ClientEntry, IoConnection, stop}
use deric_rpc.Server.Service.{Service, remove_io_connection_client}
use deric_rpc.Server.Registry

module _ {W : Type 0} (os : Kernel W) where
  send_on_connection : Option IoConnection → Bytes → ClientEntry → W → Option (ℤ × ClientEntry × W)
  send_on_connection none message e w = some (failure, e, w)
  send_on_connection (some c) message e w = do
    (res, connection, w') ←
        Connection.send_data os (some message) (to_int (length message)) c.connection w
    some (res, record e { io_connection = some (record c { connection = connection }) }, w')

  unfoldable pub send_data : Bytes → ClientEntry → W → Option (ℤ × ClientEntry × W)
  unfolding send_on_connection
  send_data message e w = send_on_connection e.io_connection message e w

  -- `resultLen` is the length of the reply as an `int`.
  unfoldable pub handle_data :
      Msgpack → Option (Service W) → Option Bytes → ClientEntry → W → Option (ℤ × ClientEntry × W)
  unfolding send_data
  handle_data mp none message e w = some (failure, e, w)
  handle_data mp (some service) message e w =
      let (res, result, w₁) = Registry.handle_data mp service message [] w in
      if int_beq (to_int (length result)) (pos 0) then some (res, e, w₁) else send_data result e w₁

  forget_client : Option (Service W) → ClientEntry → ℤ × Option (Service W)
  forget_client none e = (failure, none)
  forget_client (some service) e = (success, some (remove_io_connection_client e.client_id service))

  unfoldable pub handle_event :
      IoConnectionEvent
      → Option (Service W)
      → ClientEntry
      → IoModule
      → W
      → Option (ℤ × ClientEntry × Option (Service W) × IoModule × W)
  unfolding forget_client
  handle_event close_event service e m w = do
    (_, e₁, m₁, w₁) ← stop os e m w
    let (res, service₁) = forget_client service e₁
    some (res, e₁, service₁, m₁, w₁)
