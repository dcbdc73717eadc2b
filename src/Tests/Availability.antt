-- ===== src/Tests/Availability.antt =====
-- A service that starts and accepts a client, and a service that answers a second request.
use deric_rpc.Prelude.{
  ℕ, Bool, ℤ, zero, pos, success, [], ◌∷◌, ◌++◌, ◌≡◌, refl, false, true, some, arith, insert,
  lookup, contains, nat_equality, int_equality,
}
use deric_rpc.Common.{initialized, started}
use deric_rpc.Io.Connection.Framing.{frame}
use deric_rpc.Io.Connection
use deric_rpc.Io.Connection.{Connection, set_io_client, set_io_fd, new_connection, get_fd}
use deric_rpc.Io.Server
use deric_rpc.Io.Events.{IoModule, add_io_member}
use deric_rpc.Io.Events.Loop.{EpollEvent, handle_event, handle_events, close_members, wait_loop}
use deric_rpc.Server.Client.{set_io_connection, new_client_entry}
use deric_rpc.Server.Client
use deric_rpc.Server.Service.{Service, get_new_client_id, create_io_connection_client}
use deric_rpc.Server.Service
use deric_rpc.Server.Accept.{on_connect_request, started_entry}
use deric_rpc.Server.InStep.{InStep}
use deric_rpc.Server.InStep.Guarded.{Harmless, Guarded}
use deric_rpc.Server.InStep.Guarded.Start.{wait_loop-stays_free}
use deric_rpc.Tests.Replies.{machine-GivesAtMost, service-Brief}
use deric_rpc.Server.InStep.Returning.{Brief, Alike-Brief}
use deric_rpc.Tests.Descriptors.{IsOpened, machine-Descriptors}
use deric_rpc.Function.{exec_result}
use deric_rpc.Server.Host.{Host, kernel, host_members, held, service_lives, on_read_available}
use deric_rpc.Client.Entry.{request}
use deric_rpc.Rpc.Round.{replied_on}
use deric_rpc.Tests.Events.{server}
use deric_rpc.Tests.Exchanges.{both}
use deric_rpc.Tests.Frames.{connection}
use deric_rpc.Tests.Hosts.{asked, answered, host, service, one_client, entry, pending}
use deric_rpc.Tests.Machine.{Machine, machine, capacity, idle, online}
use deric_rpc.Tests.Packer.{packer}

shout-Harmless : Harmless IsOpened service
unfolding lookup exec_result
shout-Harmless called request result_string f d w found used = ground (arith, found, used)

-- A service that is set up, and an event module without members.
abbrev ready_service : Service Machine
ready_service = record service { state = initialized; clients = []; io_server = some server }

abbrev empty_module : IoModule
empty_module = record one_client { wakeup_read_fd = pos 13; io_members = [] }

-- The service has started on the descriptor 3.
abbrev listening_module : IoModule
listening_module = record empty_module { io_members = (pos 3, zero) ∷ [] }

abbrev listening : Host Machine
listening = record {
  world = record idle { opened = pos 3 ∷ [] };
  io_module = empty_module;
  service = record ready_service {
    state = started;
    io_server = some (record server {
      state = started;
      socket_fd = pos 3;
      io_entry = some (record { object = zero; fd = pos 3 });
    });
  };
  client_index = 0;
}

-- A client is on the descriptor 4.
abbrev accepted_module : IoModule
accepted_module = record listening_module { io_members = (pos 3, zero) ∷ (pos 4, 2) ∷ [] }

abbrev accepted : Host Machine
accepted = record listening {
  world = record idle { opened = pos 4 ∷ pos 3 ∷ [] };
  io_module = accepted_module;
  service = record listening.service {
    clients = (1, started_entry machine held service_lives 1 1 2 4) ∷ [];
  };
  client_index = 1;
}

abbrev arrival : EpollEvent
arrival = record { fd = pos 3; readable = true; error = false; hang_up = false }

starting :
    Service.start machine zero ready_service empty_module idle
    ≡ some (success, listening.service, listening_module, listening.world)
unfolding Service.start Server.start add_io_member contains insert
starting = refl

accepting :
    wait_loop
      (kernel machine)
      (host_members packer machine)
      ((arrival ∷ []) ∷ [])
      pending
      listening_module
      listening
    ≡ some (false, accepted_module, accepted)
unfolding wait_loop handle_events close_members handle_event on_read_available on_connect_request
    get_new_client_id create_io_connection_client new_client_entry set_io_connection Client.start
    Connection.start add_io_member lookup contains insert set_io_client set_io_fd new_connection
    get_fd
accepting = refl

listening-Brief : Brief packer capacity listening.service
listening-Brief =
    Alike-Brief packer capacity service listening.service
      (record { state = refl; serialer = refl; functions = refl }) service-Brief

wait_loop-stays_free_example :
    (ended : Bool) × (m' : IoModule) × (σ' : Host Machine) × (wait_loop
        (kernel machine)
        (host_members packer machine)
        ((arrival ∷ []) ∷ [])
        pending
        listening_module
        listening
      ≡ some (ended, m', σ'))
    × (m'.members_locked ≡ false)
    × InStep σ'.service m'
    × ((d : ℤ) (object : ℕ) → lookup d m'.io_members ≡ some object → IsOpened d σ'.world)
wait_loop-stays_free_example =
    wait_loop-stays_free packer machine IsOpened ready_service empty_module listening_module idle
      success ((arrival ∷ []) ∷ []) pending listening capacity machine-Descriptors shout-Harmless
      (omega arith) machine-GivesAtMost listening-Brief refl refl refl starting refl refl

-- One client.
abbrev second_asked : Host Machine
second_asked =
    replied_on answered 1 entry connection
      (record online { incoming = frame asked ++ []; sent = frame answered }) (host both)

abbrev used : Connection
used = record connection { receive_buffer = []; send_buffer = frame answered }
