-- ===== src/Server/Service.antt =====
-- RpcServiceImpl: deric_rpc/rpc/server/src/rpc_service_impl.cpp and its header, its life cycle and
-- its clients. Each function is one call with its locks free; `none` is a call that waits for the
-- mutex of the event module for ever.
pub mod Lifecycle
pub mod Ids
use deric_rpc.Prelude.{
  ℕ, suc, ◌+◌, ◌%◌, ◌^◌, Bool, true, false, not, Bytes, [], ◌∷◌, Option, none, some, ◌>>=◌, ℤ,
  failure, success, is_neg, if◌then◌else◌, Dict, insert, erase, contains, nat_equality,
}
use deric_rpc.Common.{
  ComponentState, created, initialized, started, is_created, is_initialized, is_started,
}
use deric_rpc.Os.{Kernel}
use deric_rpc.Io.Events.{IoModule}
use deric_rpc.Io.Server.{TcpIoServer, TcpIoServerConfig, new_tcp_io_server}
use deric_rpc.Io.Server
use deric_rpc.Function.{ServiceFunction}
use deric_rpc.Server.Client.{ClientEntry, new_client_entry}
use deric_rpc.Server.Client

pub record ServiceConfig : Type 0 where
  pub service_ip : Bytes
  pub service_port : ℤ
  pub max_connection_number : ℤ
  pub has_serialer : Bool

-- `has_serialer` says whether `m_serialer` is set.
pub record Service (W : Type 0) : Type 0 where
  pub service_name : Bytes
  pub state : ComponentState
  pub has_serialer : Bool
  pub io_server : Option TcpIoServer
  pub clients : Dict ℕ ClientEntry
  pub functions : Dict Bytes (ServiceFunction W)

unfoldable pub new_service : {W : Type 0} → Bytes → Service W
new_service name = record {
  service_name = name;
  state = created;
  has_serialer = false;
  io_server = none;
  clients = [];
  functions = [];
}

-- A static counter of the process, 32 bits wide; the result is its new value, which is the id.
unfoldable pub get_new_client_id : ℕ → ℕ
get_new_client_id index = (index + 1) % 2 ^ 32

module _ {W : Type 0} where
  -- The result of `TcpIoServer::init` on the new server.
  init_server : ℤ × TcpIoServer → Service W → ℤ × Service W
  init_server (res, server) s =
      if is_neg res
      then (failure, record s { io_server = none })
      else (res, record s { io_server = some server; state = initialized })

  -- `self` is the number of the service object, which the server gets as its client.
  unfoldable pub init : ℕ → ServiceConfig → Service W → ℤ × Service W
  unfolding init_server
  init self service_config s =
      if not (is_created s.state)
      then (failure, s)
      else (let config : TcpIoServerConfig = record {
        ip = service_config.service_ip;
        port = service_config.service_port;
        max_connection_number = service_config.max_connection_number;
        server_client = some self;
      } in
          init_server (Server.init config new_tcp_io_server)
            (record s { has_serialer = service_config.has_serialer }))

  -- The new entry, the service and the counter.
  unfoldable pub create_io_connection_client : ℕ → Service W → ClientEntry × Service W × ℕ
  unfolding get_new_client_id
  create_io_connection_client index s =
      let client_id = get_new_client_id index in
      let entry = new_client_entry client_id in
      (entry, record s { clients = insert client_id entry s.clients }, client_id)

  -- A missing client is logged, and erased all the same.
  unfoldable pub remove_io_connection_client : ℕ → Service W → Service W
  remove_io_connection_client client_id s = record s { clients = erase client_id s.clients }

  -- The other form takes the entry, as a pointer that may be null.
  abbrev pub remove_io_connection_entry : Option ClientEntry → Service W → Service W
  remove_io_connection_entry none s = s
  remove_io_connection_entry (some entry) s =
      remove_io_connection_client (Client.get_client_id entry) s

  -- Not implemented by the source.
  unfoldable pub post_event : Bytes → Bytes → Service W → ℤ × Service W
  post_event event_name payload s = (success, s)

  module _ (os : Kernel W) where
    -- The result of `TcpIoServer::deInit`.
    end_server : ℤ × TcpIoServer × IoModule × W → Service W → ℤ × Service W × IoModule × W
    end_server (res, server, m, w) s =
        if is_neg res
        then (failure, record s { io_server = some server }, m, w)
        else (res, record s { io_server = none; has_serialer = false; state = created }, m, w)

    unfoldable pub de_init : Service W → IoModule → W → Option (ℤ × Service W × IoModule × W)
    unfolding end_server
    de_init s m w =
        if not (is_initialized s.state) then some (failure, s, m, w) else elim s.io_server [
          | none ↦ some (failure, record s { has_serialer = false }, m, w)
          | some server ↦ do r ← Server.de_init os server m w; some (end_server r s)
        ]

    -- `entry` is the object that `TcpIoServer::start` makes for the event module.
    unfoldable pub start : ℕ → Service W → IoModule → W → Option (ℤ × Service W × IoModule × W)
    start entry s m w =
        if not (is_initialized s.state) then some (failure, s, m, w) else elim s.io_server [
          | none ↦ some (failure, s, m, w)
          | some server ↦ do
            (res, server', m₁, w₁) ← Server.start os entry server m w
            some (
              res,
              record s {
                io_server = some server';
                state = if is_neg res then initialized else started;
              },
              m₁,
              w₁,
            )
        ]

    -- The loop over `m_clients`; the entries are dropped behind it.
    unfoldable pub stop_clients : Dict ℕ ClientEntry → IoModule → W → Option (IoModule × W)
    stop_clients [] m w = some (m, w)
    stop_clients ((_, e) ∷ es) m w = do
      (_, _, m₁, w₁) ← Client.stop_client_entry os e m w
      stop_clients es m₁ w₁

    -- The state becomes `initialized` on every path.
    unfoldable pub stop : Service W → IoModule → W → Option (ℤ × Service W × IoModule × W)
    unfolding stop_clients
    stop s m w =
        if not (is_started s.state)
        then some (failure, record s { state = initialized }, m, w)
        else elim s.io_server [
          | none ↦ some (success, record s { state = initialized }, m, w)
          | some server ↦ do
            (m₁, w₁) ← stop_clients s.clients m w
            (res, server', m₂, w₂) ← Server.stop os server m₁ w₁
            some (
              res,
              record s { clients = []; io_server = some server'; state = initialized },
              m₂,
              w₂,
            )
        ]
