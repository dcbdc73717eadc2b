-- ===== src/Client/Host.antt =====
-- The objects of a process with one client, and the calls back between them: the event thread of
-- deric_rpc/io/src/io_module.cpp calls the TcpIoConnection, which calls RpcClientImpl, whose callback
-- is `RpcClientEntry::serviceMessageCallback`. The client holds its connection; one that the client
-- has dropped lives on in the event module's table.
use deric_rpc.Prelude.{
  ℕ, Bool, true, false, Bytes, take, List, [], ◌∷◌, ◌++◌, Option, none, some, ◌>>=◌, ℤ, pos, negsuc,
  failure, Dict, lookup, insert, nat_beq, nat_equality, if◌then◌else◌,
}
use deric_rpc.Common.{IoMemberError, IoMemberErrorAction, keep, IoConnectionEvent}
use deric_rpc.Os.{Kernel, lift_kernel}
use deric_rpc.Io.Connection.{Connection, IoClients}
use deric_rpc.Io.Connection
use deric_rpc.Io.Events.Loop.{IoMembers}
use deric_rpc.Serial.{Msgpack}
use deric_rpc.Server.Client.{IoConnection}
use deric_rpc.Client.Impl.{ClientImpl}
use deric_rpc.Client.Impl
use deric_rpc.Client.Entry.{ClientEntry, service_message_callback}

-- `notified` holds the ids whose condition variables were notified, the first one first, and
-- `dropped` the connections that the client holds no more, by their numbers.
pub record ClientHost (V : Type 0) : Type 0 where
  pub world : V
  pub client : ClientEntry
  pub notified : List ℤ
  pub dropped : Dict ℕ Connection

abbrev append_notified : Option ℤ → List ℤ → List ℤ
append_notified none ids = ids
append_notified (some id) ids = ids ++ id ∷ []

-- The bytes that `handleData` makes a string of; it refuses a length that is not positive.
abbrev pub first_bytes : ℤ → Option Bytes → Option Bytes
first_bytes len none = none
first_bytes (pos n) (some bytes) = some (take n bytes)
first_bytes (negsuc n) (some bytes) = some []

abbrev pub kernel : {V : Type 0} → Kernel V → Kernel (ClientHost V)
kernel = lift_kernel (λ σ. σ.world) (λ w σ. record σ { world = w })

abbrev lives : Option ClientImpl → Bool
lives none = false
lives (some impl) = true

abbrev io_connection_of : Option ClientImpl → Option IoConnection
io_connection_of none = none
io_connection_of (some impl) = impl.io_connection

-- The connection with the number, which is the client's own or one that it has dropped.
abbrev own_or : ℕ → Option IoConnection → Dict ℕ Connection → Option Connection
own_or object none dropped = lookup object dropped
own_or object (some io) dropped =
    if nat_beq io.object object then some io.connection else lookup object dropped

module _ (mp : Msgpack) {V : Type 0} where
  -- The callback, where RpcClientImpl calls it.
  call_back : Option Bytes → ClientHost V → ClientHost V
  call_back none σ = σ
  call_back (some message) σ =
      let (client, notified) = service_message_callback mp message σ.client in
      record σ { client = client; notified = append_notified notified σ.notified }

  unfoldable pub impl_data :
      Option Bytes → ℤ → Connection → ClientHost V → Option (ℤ × Connection × ClientHost V)
  unfolding call_back
  impl_data bytes len c σ = do
    impl ← σ.client.client_impl
    let (res, message) = Impl.handle_data (first_bytes len bytes) impl
    some (res, c, call_back message σ)

  unfoldable pub impl_event :
      IoConnectionEvent → Connection → ClientHost V → Option (ℤ × Connection × ClientHost V)
  impl_event event c σ = do
    impl ← σ.client.client_impl
    let (res, impl') = Impl.handle_event event impl
    some (res, c, record σ { client = record σ.client { client_impl = some impl' } })

  -- RpcClientImpl as the client of its connection.
  abbrev pub impl_client : IoClients (ClientHost V)
  impl_client = record {
    alive = λ id σ. lives σ.client.client_impl;
    handle_event = λ id. impl_event;
    handle_data = λ id. impl_data;
  }

  abbrev find_connection : ℕ → ClientHost V → Option Connection
  find_connection object σ = own_or object (io_connection_of σ.client.client_impl) σ.dropped

  abbrev put_dropped : ℕ → Connection → ClientHost V → ClientHost V
  put_dropped object c σ = record σ { dropped = insert object c σ.dropped }

  abbrev put_own : ℕ → Connection → ClientImpl → Option IoConnection → ClientHost V → ClientHost V
  put_own object c impl none σ = put_dropped object c σ
  put_own object c impl (some io) σ =
      if nat_beq io.object object
      then record σ {
        client = record σ.client {
          client_impl = some (record impl { io_connection = some (record io { connection = c }) });
        };
      }
      else put_dropped object c σ

  abbrev put_for : ℕ → Connection → Option ClientImpl → ClientHost V → ClientHost V
  put_for object c none σ = put_dropped object c σ
  put_for object c (some impl) σ = put_own object c impl impl.io_connection σ

  -- The connection as a call has left it.
  abbrev pub write_back : ℕ → Connection → ClientHost V → ClientHost V
  write_back object c σ = put_for object c σ.client.client_impl σ

  module _ (os : Kernel V) where
    read_connection : ℕ → Option Connection → ClientHost V → Option (ℤ × ClientHost V)
    read_connection object none σ = some (failure, σ)
    read_connection object (some c) σ = do
      (res, c', σ') ← Connection.on_read_available (kernel os) impl_client c σ
      some (res, write_back object c' σ')

    -- `TcpIoConnection::onReadAvailable` of a connection of the client.
    unfoldable pub on_read_available : ℕ → ClientHost V → Option (ℤ × ClientHost V)
    unfolding read_connection
    on_read_available object σ = read_connection object (find_connection object σ) σ

    fail_connection :
        ℕ
        → IoMemberError
        → Option Connection
        → ClientHost V
        → Option (IoMemberErrorAction × ClientHost V)
    fail_connection object error none σ = some (keep, σ)
    fail_connection object error (some c) σ = do
      (action, c', σ') ← Connection.on_io_error (kernel os) impl_client error c σ
      some (action, write_back object c' σ')

    -- `TcpIoConnection::onIoError` of a connection of the client.
    unfoldable pub on_io_error :
        ℕ → IoMemberError → ClientHost V → Option (IoMemberErrorAction × ClientHost V)
    unfolding fail_connection
    on_io_error object error σ = fail_connection object error (find_connection object σ) σ

    -- The connections as the event thread calls them. They do not call the event module back.
    abbrev pub client_members : IoMembers (ClientHost V)
    client_members = record {
      on_read_available = λ object m σ. do
        (res, σ') ← on_read_available object σ
        some (res, m, σ');
      on_io_error = λ object error m σ. do
        (action, σ') ← on_io_error object error σ
        some (action, m, σ');
    }
