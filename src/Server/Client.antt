-- ===== src/Server/Client.antt =====
-- RpcServiceClientEntry: deric_rpc/rpc/server/src/rpc_service_client_entry.cpp. The service that
-- `m_serviceImpl` points to is asked through parameters, and `service_alive` says whether the weak
-- pointer can be locked.
use deric_rpc.Prelude.{
  ℕ, Bool, not, Option, none, some, ◌>>=◌, ℤ, failure, success, is_neg, if◌then◌else◌,
}
use deric_rpc.Os.{Kernel}
use deric_rpc.Io.Connection.{Connection, IoClients, get_fd}
use deric_rpc.Io.Connection
use deric_rpc.Io.Events.{IoModule, IoMember, add_io_member, remove_io_member}

-- The connection is an object of its own, which the event module knows by number.
pub record IoConnection : Type 0 where
  pub object : ℕ
  pub connection : Connection

pub record ClientEntry : Type 0 where
  pub client_id : ℕ
  pub io_connection : Option IoConnection

unfoldable pub new_client_entry : ℕ → ClientEntry
new_client_entry client_id = record { client_id = client_id; io_connection = none }

unfoldable pub set_io_connection : Option IoConnection → ClientEntry → ClientEntry
set_io_connection connection e = record e { io_connection = connection }

abbrev pub get_client_id : ClientEntry → ℕ
get_client_id e = e.client_id

abbrev pub member_of : IoConnection → IoMember
member_of c = record { object = c.object; fd = get_fd c.connection }

module _ {W : Type 0} (os : Kernel W) where
  stop_connection : Option IoConnection → IoModule → W → Option (Option IoConnection × IoModule × W)
  stop_connection none m w = some (none, m, w)
  stop_connection (some c) m w = do
    (_, m₁, w₁) ← remove_io_member os (some (member_of c)) m w
    let (_, connection, w₂) = Connection.stop os c.connection w₁
    some (some (record c { connection = connection }), m₁, w₂)

  -- It reports success always.
  unfoldable pub stop : ClientEntry → IoModule → W → Option (ℤ × ClientEntry × IoModule × W)
  unfolding stop_connection
  stop e m w = do
    (c, m₁, w₁) ← stop_connection e.io_connection m w
    some (success, record e { io_connection = c }, m₁, w₁)

  abbrev pub stop_io_client : ClientEntry → IoModule → W → Option (ℤ × ClientEntry × IoModule × W)
  stop_io_client e m w = stop e m w

  abbrev pub stop_client_entry :
      ClientEntry → IoModule → W → Option (ℤ × ClientEntry × IoModule × W)
  stop_client_entry e m w = stop e m w

  module _ (clients : IoClients W) (service_alive : W → Bool) where
    start_connection :
        ClientEntry → IoConnection → IoModule → W → Option (ℤ × ClientEntry × IoModule × W)
    start_connection e c m w =
        let (res, connection) = Connection.start os clients c.connection w in
        let c₁ = record c { connection = connection } in
        let e₁ = record e { io_connection = some c₁ } in
        if is_neg res then some (failure, e₁, m, w) else (do
          (_, m₁, w₁) ← add_io_member os (some (member_of c₁)) m w
          some (success, e₁, m₁, w₁))

    -- The result of `addIoMember` is not looked at.
    unfoldable pub start : ClientEntry → IoModule → W → Option (ℤ × ClientEntry × IoModule × W)
    unfolding start_connection
    start e m w = elim e.io_connection [
      | none ↦ some (failure, e, m, w)
      | some c ↦ if not (service_alive w) then some (failure, e, m, w) else start_connection e c m w
    ]

    abbrev pub start_io_client :
        ClientEntry → IoModule → W → Option (ℤ × ClientEntry × IoModule × W)
    start_io_client e m w = start e m w

    abbrev pub start_client_entry :
        ClientEntry → IoModule → W → Option (ℤ × ClientEntry × IoModule × W)
    start_client_entry e m w = start e m w
