-- ===== src/Tests/Clients.antt =====
-- A client that sends requests and connects twice, and a service's entry for a client.
use deric_rpc.Prelude.{
  ℤ, pos, success, Bytes, [], ◌∷◌, ◌≡◌, refl, true, Option, none, some, arith, contains,
  int_equality, bytes_equality,
}
use deric_rpc.Common.{started, returns}
use deric_rpc.Io.Connection.Framing.{frame}
use deric_rpc.Io.Events.{IoModule, modify_epoll_event, wakeup_module}
use deric_rpc.Io.Events.Members.{Blocks}
use deric_rpc.Serial.{serial_message_meta, serial_message_data}
use deric_rpc.Function.{exec_void}
use deric_rpc.Server.Client.{IoConnection}
use deric_rpc.Server.Client
use deric_rpc.Server.Service.{Service}
use deric_rpc.Server.Registry.{register_method}
use deric_rpc.Server.Handlers.{handle_data}
use deric_rpc.Client.Impl.{ClientConnectionConfig, ClientImpl, disconnect, connect}
use deric_rpc.Client.Impl.Reconnect.{reconnect-Blocks}
use deric_rpc.Client.Entry.{ClientEntry, request, invoke}
use deric_rpc.Rpc.Served.{handle_data_void}
use deric_rpc.Rpc.Sent.{impl_with_sent, invoke_sends_request}
use deric_rpc.Tests.Packer.{packer, sized_ints-RoundTrips, sized_strings, sized_strings-RoundTrips}
use deric_rpc.Tests.Calls.{helper}
use deric_rpc.Tests.Events.{events}
use deric_rpc.Tests.Frames.{connection}
use deric_rpc.Tests.Machine.{Machine, machine, recorder, idle}

abbrev name : Bytes
name = b'f' ∷ []

abbrev pub connected : IoConnection
connected = record { object = 1; connection = connection }

abbrev entry : Client.ClientEntry
entry = record { client_id = 1; io_connection = some connected }

abbrev pub machine_service : Service Machine
machine_service = record {
  service_name = name;
  state = started;
  has_serialer = true;
  io_server = none;
  clients = [];
  functions = [];
}

abbrev shout : Bytes → Machine → Bytes × Machine
shout word w = (b'!' ∷ word, w)

abbrev keep_word : Bytes → Machine → Machine
keep_word word w = record w { handled = word ∷ [] }

handle_data_void_example :
    handle_data machine packer
      (some
        (register_method name (exec_void packer sized_strings helper keep_word) machine_service).1)
      (some (request packer sized_strings name (pos 7) (b'a' ∷ [])))
      entry
      idle
    ≡ some (success, entry, record idle { handled = (b'a' ∷ []) ∷ [] })
unfolding contains
handle_data_void_example =
    handle_data_void machine packer sized_strings machine_service helper keep_word name (pos 7)
      (b'a' ∷ []) entry idle sized_ints-RoundTrips sized_strings-RoundTrips sized_strings-RoundTrips
      refl refl refl refl

abbrev pub impl : ClientImpl
impl = record { io_connection = some connected; has_callback = true }

abbrev pub caller : ClientEntry
caller = record {
  has_serialer = true;
  client_impl = some impl;
  service_book = [];
  waiting_items = [];
}

invoke_sends_request_example :
    let message = request packer sized_strings name (pos 4) (b'a' ∷ []) in
    let (res, w') = machine.send (pos 5) (frame message) idle in
    invoke packer machine sized_strings name (b'a' ∷ []) 3 caller idle
    ≡ some
        (res, record caller { client_impl = some (impl_with_sent message connected impl) }, w', 4)
unfolding request serial_message_meta serial_message_data
invoke_sends_request_example =
    invoke_sends_request machine packer sized_strings name (b'a' ∷ []) 3 5 connected impl caller
      idle sized_ints-RoundTrips (omega arith) refl refl refl refl refl (omega arith)

abbrev pub always_eighty : Bytes → Option ℤ
always_eighty digits = some (pos 80)

abbrev to_service : ClientConnectionConfig
to_service = record { service_ip = []; service_port = b'8' ∷ b'0' ∷ [] }

abbrev pub new_client : ClientImpl
new_client = record { io_connection = none; has_callback = true }

reconnect-Blocks_example :
    let book = to_service in
    (c₁ c₂ c₃ : ClientImpl) × (m₁ m₃ : IoModule) × (w₁ w₂ w₃ : Machine) × (connect machine recorder
        always_eighty book 1 2 new_client events idle
      ≡ returns (success, c₁, m₁, w₁))
    × (disconnect machine c₁ w₁ ≡ (success, c₂, w₂))
    × (w₂ ≡ machine.close (pos 3) w₁)
    × (connect machine recorder always_eighty book 1 3 c₂ m₁ w₂ ≡ returns (success, c₃, m₃, w₃))
    × Blocks machine m₃
unfolding contains modify_epoll_event wakeup_module
reconnect-Blocks_example =
    reconnect-Blocks machine recorder always_eighty to_service 1 80 2 2 3 new_client events idle
      refl refl (record { living = refl; numbered = refl; opened = refl; accepted = refl }) refl
      (record { living = refl; numbered = refl; opened = refl; accepted = refl })
