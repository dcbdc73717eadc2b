-- ===== src/Tests/Services.antt =====
-- The life of a service, its functions, and calls that have no result or no function.
use deric_rpc.Prelude.{
  zero, arith, contains, insert, lookup, nat_beq, nat_equality, if◌then◌else◌, ℕ, ◌+◌, ℤ, pos,
  failure, success, int_equality, Bytes, List, [], ◌∷◌, ◌≡◌, refl, true, false, none, some,
  bytes_equality,
}
use deric_rpc.Io.Connection
use deric_rpc.Io.Connection.{set_io_client, set_io_fd, new_connection, get_fd}
use deric_rpc.Server.Client
use deric_rpc.Server.Client.{new_client_entry, set_io_connection}
use deric_rpc.Server.Accept.{on_connect_request, started_entry}
use deric_rpc.Server.Host.{held, service_lives}
use deric_rpc.Server.Service.Ids.{
  Reaches, born, called, accepted, create_io_connection_client_fresh,
}
use deric_rpc.Common.{created, initialized, started}
use deric_rpc.Serial.{get_message_data}
use deric_rpc.Server.Service.{
  Service, ServiceConfig, init, start, stop, new_service, get_new_client_id,
  create_io_connection_client,
}
use deric_rpc.Io.Server
use deric_rpc.Io.Server.{new_tcp_io_server}
use deric_rpc.Io.Events.{IoModule, add_io_member, modify_epoll_event, wakeup_module}
use deric_rpc.Server.Service.Lifecycle.{
  stops, inits, starts, call, run, AllFail, IsValid, ready, stop_before_init_is_lost, call-IsValid,
}
use deric_rpc.Server.Registry.{handle_data}
use deric_rpc.Client.Entry.{request}
use deric_rpc.Rpc.Call.{call_unknown}
use deric_rpc.Tests.Packer.{
  packer, sized_strings, sized_ints-RoundTrips, sized_strings-RoundTrips, unpack_sized-end,
}
use deric_rpc.Tests.Calls.{service}
use deric_rpc.Tests.Events.{server, events}
use deric_rpc.Tests.Machine.{Machine, machine, idle}

abbrev name : Bytes
name = b'f' ∷ []

abbrev note : Bytes → ℕ → ℕ
note args calls = calls + 1

call_unknown_example :
    get_message_data packer sized_strings
      (handle_data packer service
        (some (request packer sized_strings name (pos 7) (b'a' ∷ [])))
        []
        4).1
    ≡ []
unfolding lookup
call_unknown_example =
    (call_unknown packer sized_strings sized_strings service name (pos 7) (b'a' ∷ []) 4
      sized_ints-RoundTrips sized_strings-RoundTrips unpack_sized-end refl refl refl).4

abbrev config : ServiceConfig
config = record {
  service_ip = [];
  service_port = pos 80;
  max_connection_number = pos 8;
  has_serialer = true;
}

abbrev unborn_service : Service Machine
unborn_service = record {
  service_name = name;
  state = created;
  has_serialer = false;
  io_server = none;
  clients = [];
  functions = [];
}

stop_before_init_is_lost_example :
    (results : List ℤ) × (s' : Service Machine) × (run machine
        (stops ∷ inits 1 config ∷ starts 9 ∷ [])
        unborn_service
        events
        idle
      ≡ some (results, s', events, idle))
    × AllFail machine results
stop_before_init_is_lost_example =
    stop_before_init_is_lost machine (inits 1 config ∷ starts 9 ∷ []) unborn_service events idle
      refl refl

abbrev ready_service : Service Machine
ready_service = record unborn_service { state = initialized; io_server = some server }

-- A call of `stop` on a service that is initialized fails, and keeps it valid.
call-IsValid_example : IsValid machine ready_service
unfolding call stop
call-IsValid_example =
    call-IsValid machine stops ready_service ready_service events events idle idle failure
      (ready server refl refl refl) (λ e c. cc) refl

-- The service is set up, starts on the descriptor 3, and accepts a client on the descriptor 4.
abbrev set_up : Service Machine
set_up = record ready_service { has_serialer = true }

abbrev no_members : IoModule
no_members = record events { io_members = [] }

abbrev listening_service : Service Machine
listening_service = record set_up {
  state = started;
  io_server = some (record server {
    state = started;
    socket_fd = pos 3;
    io_entry = some (record { object = zero; fd = pos 3 });
  });
}

abbrev listening_module : IoModule
listening_module = record no_members { io_members = (pos 3, zero) ∷ [] }

abbrev serving_one : Service Machine
serving_one = record listening_service {
  clients = (1, started_entry machine held service_lives 1 1 2 4) ∷ [];
}

abbrev one_member : IoModule
one_member = record listening_module { io_members = (pos 3, zero) ∷ (pos 4, 2) ∷ [] }

serving_one-Reaches : Reaches machine held service_lives 1 serving_one
unfolding call init start Server.init new_tcp_io_server new_service Server.start add_io_member
    contains insert on_connect_request get_new_client_id create_io_connection_client
    new_client_entry set_io_connection Client.start Connection.start lookup set_io_client set_io_fd
    new_connection get_fd modify_epoll_event wakeup_module
serving_one-Reaches =
    accepted {s = listening_service} 2
      (record server {
        state = started;
        socket_fd = pos 3;
        io_entry = some (record { object = zero; fd = pos 3 });
      })
      1 serving_one listening_module one_member (record idle { opened = pos 3 ∷ [] })
      (record idle { opened = pos 4 ∷ pos 3 ∷ [] }) success
      (called {s = set_up} (starts zero) listening_service no_members listening_module idle
        (record idle { opened = pos 3 ∷ [] }) success
        (called {s = new_service name} (inits 1 config) set_up no_members no_members idle idle
          success (born zero name (omega arith)) refl)
        refl)
      (omega arith) refl

create_io_connection_client_fresh_example :
    let (entry, s', index') = create_io_connection_client 1 serving_one in
    (contains entry.client_id serving_one.clients ≡ false)
    × (entry.client_id ≡ index')
    × (lookup 1 s'.clients
        ≡ (if nat_beq entry.client_id 1 then some entry else lookup 1 serving_one.clients))
    × Reaches machine held service_lives index' s'
create_io_connection_client_fresh_example =
    create_io_connection_client_fresh machine held service_lives 1 1 serving_one serving_one-Reaches
      (omega arith)
