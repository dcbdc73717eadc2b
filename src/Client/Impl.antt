-- ===== src/Client/Impl.antt =====
-- RpcClientImpl: deric_rpc/rpc/client/src/rpc_client_impl.cpp and its header.
pub mod Reconnect
use deric_rpc.Prelude.{
  ℕ, Bool, true, Bytes, length, Option, none, some, ◌>>=◌, ℤ, failure, success, is_neg, is_nonpos,
  to_int, if◌then◌else◌,
}
use deric_rpc.Common.{IoConnectionEvent, close_event, Call, returns, throws, hangs}
use deric_rpc.Os.{Kernel}
use deric_rpc.Io.Connection.{
  Connection, IoClients, new_connection, set_io_client, start_to, send_data,
}
use deric_rpc.Io.Connection
use deric_rpc.Io.Events.{IoModule, add_io_member}
use deric_rpc.Server.Client.{IoConnection, member_of}

pub record ClientConnectionConfig : Type 0 where
  pub service_ip : Bytes
  pub service_port : Bytes

-- `has_callback` says whether `m_msgCallback` holds a function.
pub record ClientImpl : Type 0 where
  pub io_connection : Option IoConnection
  pub has_callback : Bool

unfoldable pub new_client_impl : ClientImpl
new_client_impl = record { io_connection = none; has_callback = Bool.false }

unfoldable pub register_message_callback : ClientImpl → ℤ × ClientImpl
register_message_callback c = (success, record c { has_callback = true })

unfoldable pub set_io_connection : IoConnection → ClientImpl → ClientImpl
set_io_connection io c = record c { io_connection = some io }

unfoldable pub handle_event : IoConnectionEvent → ClientImpl → ℤ × ClientImpl
handle_event close_event c = (success, record c { io_connection = none })

-- The result, and the message that the callback is called with.
unfoldable pub handle_data : Option Bytes → ClientImpl → ℤ × Option Bytes
handle_data none c = (failure, none)
handle_data (some message) c =
    if is_nonpos (to_int (length message))
    then (failure, none)
    else (success, if c.has_callback then some message else none)

module _ {W : Type 0} (os : Kernel W) where
  unfoldable pub disconnect : ClientImpl → W → ℤ × ClientImpl × W
  disconnect c w = elim c.io_connection [
    | none ↦ (success, c, w)
    | some io ↦
        let (res, connection, w') = Connection.stop os io.connection w in
        if is_neg res
        then (
          failure,
          record c { io_connection = some (record io { connection = connection }) },
          w',
        )
        else (success, record c { io_connection = none }, w')
  ]

  send_on : Option IoConnection → Bytes → ClientImpl → W → Option (ℤ × ClientImpl × W)
  send_on none msg c w = some (failure, c, w)
  send_on (some io) msg c w = do
    (res, connection, w') ← send_data os (some msg) (to_int (length msg)) io.connection w
    some (res, record c { io_connection = some (record io { connection = connection }) }, w')

  unfoldable pub send_msg : Bytes → ClientImpl → W → Option (ℤ × ClientImpl × W)
  unfolding send_on
  send_msg msg c w = send_on c.io_connection msg c w

  -- Behind the start of the connection: `addIoMember`, and its failure.
  add_connection : IoConnection → ClientImpl → IoModule → W → Option (ℤ × ClientImpl × IoModule × W)
  add_connection io c m w = do
    (res, m₁, w₁) ← add_io_member os (some (member_of io)) m w
    let (_, _, w₂) = Connection.stop os io.connection w₁
    if is_neg res then some (failure, c, m₁, w₂) else some (success, set_io_connection io c, m₁, w₁)

  module _ (clients : IoClients W) (stoi : Bytes → Option ℤ) where
    -- `self` is the number of this object and `object` that of the new connection. `stoi` throws
    -- where it gives no number.
    start_connection :
        ℤ → Bytes → ℕ → ℕ → ClientImpl → IoModule → W → Option (ℤ × ClientImpl × IoModule × W)
    unfolding add_connection
    start_connection port ip self object c m w =
        let fresh = set_io_client (some self) new_connection in
        let (res, connection, w₁) = start_to os clients ip port fresh w in
        if is_neg res
        then some (failure, c, m, w₁)
        else add_connection (record { object = object; connection = connection }) c m w₁

    unfoldable pub connect :
        ClientConnectionConfig
        → ℕ
        → ℕ
        → ClientImpl
        → IoModule
        → W
        → Call (ℤ × ClientImpl × IoModule × W)
    unfolding start_connection
    connect config self object c m w = elim (stoi config.service_port) [
      | none ↦ throws
      | some port ↦ elim (start_connection port config.service_ip self object c m w) [
        | none ↦ hangs
        | some r ↦ returns r
      ]
    ]
