-- ===== src/Server/Host.antt =====
-- The objects of a process that runs one service, and the calls back between them: what the event
-- thread of deric_rpc/io/src/io_module.cpp reaches through IoMember and IoConnectionClientInterface.
-- Object 0 is the TcpIoServerEntry of deric_rpc/io/src/tcp_io_server_entry.cpp, which calls the server
-- of the service; object `suc id` is the TcpIoConnection of the client `id`. The entry of a client
-- holds its connection. A connection that calls its entry is passed along, and written back behind
-- the call.
use deric_rpc.Prelude.{
  ℕ, zero, suc, pos, negsuc, take, Bool, true, Bytes, Option, none, some, ◌>>=◌, ℤ, failure, lookup,
  insert, contains, nat_equality,
}
use deric_rpc.Common.{IoMemberError, IoMemberErrorAction, keep, IoConnectionEvent}
use deric_rpc.Os.{Kernel, lift_kernel}
use deric_rpc.Io.Connection.{Connection, IoClients}
use deric_rpc.Io.Connection
use deric_rpc.Io.Events.{IoModule}
use deric_rpc.Io.Events.Loop.{IoMembers}
use deric_rpc.Io.Server.{TcpIoServer}
use deric_rpc.Io.Server
use deric_rpc.Serial.{Msgpack}
use deric_rpc.Server.Client.{ClientEntry, IoConnection}
use deric_rpc.Server.Service.{Service, get_new_client_id}
use deric_rpc.Server.Handlers
use deric_rpc.Server.Accept.{on_connect_request}

pub record Host (V : Type 0) : Type 0 where
  pub world : V
  pub io_module : IoModule
  pub service : Service V
  -- The static counter of `getNewClientId`.
  pub client_index : ℕ

abbrev pub connection_object : ℕ → ℕ
connection_object client_id = suc client_id

-- The entry with the connection that calls it.
abbrev pub with_connection : Connection → ClientEntry → ClientEntry
with_connection c e = record e {
  io_connection = some (record { object = connection_object e.client_id; connection = c });
}

-- The bytes that a pointer and a length stand for. A negative length, as the unsigned size that
-- msgpack takes, goes beyond every buffer.
abbrev pub pointed : ℤ → Option Bytes → Option (Option Bytes)
pointed len none = some none
pointed (pos n) (some bytes) = some (some (take n bytes))
pointed (negsuc n) (some bytes) = none

abbrev pub connection_or : Connection → Option IoConnection → Connection
connection_or c none = c
connection_or c (some io) = io.connection

module _ {V : Type 0} where
  abbrev pub write_entry : ℕ → Connection → Option ClientEntry → Service V → Service V
  write_entry id c none s = s
  write_entry id c (some e) s = record s { clients = insert id (with_connection c e) s.clients }

  -- An entry that is not in the table any more has ended, with its connection.
  abbrev pub write_back : ℕ → Connection → Host V → Host V
  write_back id c σ = record σ {
    service = write_entry id c (lookup id σ.service.clients) σ.service;
  }

  abbrev service_or : Option (Service V) → Service V → Service V
  service_or none s = s
  service_or (some s') s = s'

  abbrev pub kernel : Kernel V → Kernel (Host V)
  kernel = lift_kernel (λ σ. σ.world) (λ w σ. record σ { world = w })

  -- While a connection is accepted, its new entry is held by the caller, and so lives.
  abbrev pub held : IoClients V
  held = record {
    alive = λ id w. true;
    handle_event = λ id event c w. none;
    handle_data = λ id bytes len c w. none;
  }

  abbrev pub service_lives : V → Bool
  service_lives w = true

module _ (mp : Msgpack) {V : Type 0} (os : Kernel V) where
  -- RpcServiceClientEntry as the client of its connection.
  unfoldable pub entry_data :
      ℕ → Option Bytes → ℤ → Connection → Host V → Option (ℤ × Connection × Host V)
  entry_data id bytes len c σ = do
    e ← lookup id σ.service.clients
    message ← pointed len bytes
    (res, e', w) ← Handlers.handle_data os mp (some σ.service) message (with_connection c e) σ.world
    some (res, connection_or c e'.io_connection, record σ { world = w })

  unfoldable pub entry_event :
      ℕ → IoConnectionEvent → Connection → Host V → Option (ℤ × Connection × Host V)
  entry_event id event c σ = do
    e ← lookup id σ.service.clients
    (res, e', s, m, w) ←
        Handlers.handle_event os event (some σ.service) (with_connection c e) σ.io_module σ.world
    some (
      res,
      connection_or c e'.io_connection,
      record σ { world = w; io_module = m; service = service_or s σ.service },
    )

  abbrev pub entries : IoClients (Host V)
  entries = record {
    alive = λ id σ. contains id σ.service.clients;
    handle_event = entry_event;
    handle_data = entry_data;
  }

  -- `TcpIoConnection::onReadAvailable` of a client's connection.
  unfoldable pub read_connection : ℕ → Option IoConnection → Host V → Option (ℤ × Host V)
  read_connection id none σ = some (failure, σ)
  read_connection id (some io) σ = do
    (res, c, σ') ← Connection.on_read_available (kernel os) entries io.connection σ
    some (res, write_back id c σ')

  -- `TcpIoServerEntry::onReadAvailable`.
  unfoldable pub read_server : Option TcpIoServer → Host V → Option (ℤ × Host V)
  read_server none σ = some (failure, σ)
  read_server (some server) σ = do
    let id = get_new_client_id σ.client_index
    (res, s, index, m, w) ←
        on_connect_request os held service_lives id (connection_object id) σ.client_index server
          σ.service σ.io_module σ.world
    some (res, record σ { world = w; io_module = m; service = s; client_index = index })

  abbrev io_connection_of : Option ClientEntry → Option IoConnection
  io_connection_of none = none
  io_connection_of (some e) = e.io_connection

  unfoldable pub on_read_available : ℕ → Host V → Option (ℤ × Host V)
  unfolding read_server read_connection
  on_read_available zero σ = read_server σ.service.io_server σ
  on_read_available (suc id) σ =
      read_connection id (io_connection_of (lookup id σ.service.clients)) σ

  -- `TcpIoServerEntry::onIoError`.
  unfoldable pub fail_server : Option TcpIoServer → Host V → Option (IoMemberErrorAction × Host V)
  fail_server none σ = some (keep, σ)
  fail_server (some server) σ = do
    (server', m, w) ← Server.on_io_error os server σ.io_module σ.world
    some (
      keep,
      record σ {
        world = w;
        io_module = m;
        service = record σ.service { io_server = some server' };
      },
    )

  -- `TcpIoConnection::onIoError` of a client's connection.
  unfoldable pub fail_connection :
      ℕ → IoMemberError → Option IoConnection → Host V → Option (IoMemberErrorAction × Host V)
  fail_connection id error none σ = some (keep, σ)
  fail_connection id error (some io) σ = do
    (action, c, σ') ← Connection.on_io_error (kernel os) entries error io.connection σ
    some (action, write_back id c σ')

  unfoldable pub on_io_error : ℕ → IoMemberError → Host V → Option (IoMemberErrorAction × Host V)
  unfolding fail_server fail_connection
  on_io_error zero error σ = fail_server σ.service.io_server σ
  on_io_error (suc id) error σ =
      fail_connection id error (io_connection_of (lookup id σ.service.clients)) σ

  -- The objects as the event thread calls them.
  abbrev pub host_members : IoMembers (Host V)
  host_members = record {
    on_read_available = λ object m σ. do
      (res, σ') ← on_read_available object (record σ { io_module = m })
      some (res, σ'.io_module, σ');
    on_io_error = λ object error m σ. do
      (action, σ') ← on_io_error object error (record σ { io_module = m })
      some (action, σ'.io_module, σ');
  }
