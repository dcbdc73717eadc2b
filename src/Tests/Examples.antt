-- ===== src/Tests/Examples.antt =====
-- The example server, set up from its own configuration file, example/server/test_server.config.
use deric_rpc.Prelude.{
  ℤ, pos, negsuc, success, Bytes, [], ◌∷◌, ◌++◌, ◌≡◌, refl, true, false, Option, none, some, ◌>>=◌,
  Dict, lookup, contains, insert, erase, bytes_equality, int_equality,
}
use deric_rpc.Common.{created, initialized, started}
use deric_rpc.Io.Events.{
  IoModule, new_io_module, modify_epoll_event, add_io_member, remove_io_member,
}
use deric_rpc.Io.Events
use deric_rpc.Io.Server.{TcpIoServer, new_tcp_io_server}
use deric_rpc.Io.Server
use deric_rpc.Serial.{Packing}
use deric_rpc.Serial.Laws.{RoundTrips}
use deric_rpc.Config.{
  find_byte, find_other, skip_back, emplace, add_item, parse_from, parse_line, lines, parse_lines,
}
use deric_rpc.Config
use deric_rpc.Process.{Process}
use deric_rpc.Process
use deric_rpc.Client.Entry.{request}
use deric_rpc.Server.Service.{Service, new_service}
use deric_rpc.Server.Registry.{handle_data}
use deric_rpc.Server.Entry.{WithHelper, kernel}
use deric_rpc.Rpc.Messages.{reply_with}
use deric_rpc.Example.Api.{
  rpc_service_deric_test, rpc_service_deric_test_hello, rpc_service_deric_test_add,
  rpc_service_deric_test_minor,
}
use deric_rpc.Example.Console.{Console, int_add, int_sub}
use deric_rpc.Server.Service
use deric_rpc.Example.Server.{Program, set_up, shown, read_lines, exit_line, close_line}
use deric_rpc.Example.Server.Closing.{exit_leaves_minor}
use deric_rpc.Example.Server.Serving.{main_serves, serving_service}
use deric_rpc.Tests.Machine.{Machine, machine, idle}
use deric_rpc.Tests.Packer.{
  packer, sized, int_bytes, bytes_int, sized_ints, sized_strings, unpack-sized,
  sized_ints-RoundTrips, sized_strings-RoundTrips,
}

abbrev pub screen : Console Machine
screen = record { print_line = λ line w. record w { handled = w.handled ++ (line ∷ []) } }

-- Two numbers are four bytes.
abbrev two_ints : Bytes → Option (ℤ × ℤ)
two_ints (x ∷ y ∷ z ∷ u ∷ []) = do
  a ← bytes_int (x ∷ y ∷ [])
  b ← bytes_int (z ∷ u ∷ [])
  some (a, b)
two_ints _ = none

abbrev pair_bytes : ℤ × ℤ → Bytes
pair_bytes (a, b) = int_bytes a ++ int_bytes b

abbrev pub sized_pairs : Packing Bytes (ℤ × ℤ)
sized_pairs = record {
  pack = λ ab. sized (pair_bytes ab);
  as_value = two_ints;
  initial = (pos 0, pos 0);
}

two_ints-pair_bytes : (ab : ℤ × ℤ) → two_ints (pair_bytes ab) ≡ some ab
two_ints-pair_bytes (pos a, pos b) = refl
two_ints-pair_bytes (pos a, negsuc b) = refl
two_ints-pair_bytes (negsuc a, pos b) = refl
two_ints-pair_bytes (negsuc a, negsuc b) = refl

pub sized_pairs-RoundTrips : RoundTrips packer sized_pairs
sized_pairs-RoundTrips = record {
  unpacked = λ before after ab.
      (pair_bytes ab, unpack-sized before (pair_bytes ab) after, two_ints-pair_bytes ab);
}

abbrev ip : Bytes
ip = b'1' ∷ b'2' ∷ b'7' ∷ b'.' ∷ b'0' ∷ b'.' ∷ b'1' ∷ b'.' ∷ b'1' ∷ []

abbrev port : Bytes
port = b'1' ∷ b'3' ∷ b'0' ∷ b'0' ∷ b'1' ∷ []

abbrev pub test_server_config : Bytes
test_server_config =
    (b'I' ∷ b'P' ∷ b' ' ∷ b'=' ∷ b' ' ∷ ip)
    ++ (b'\n' ∷ ((b'P' ∷ b'o' ∷ b'r' ∷ b't' ∷ b' ' ∷ b'=' ∷ b' ' ∷ []) ++ port))

abbrev items : Dict Bytes Bytes
items = (b'I' ∷ b'P' ∷ [], ip) ∷ (b'P' ∷ b'o' ∷ b'r' ∷ b't' ∷ [], port) ∷ []

test_server_config-items : Config.init (some test_server_config) [] ≡ some (success, items)
unfolding Config.init lines parse_lines parse_line parse_from find_byte find_other skip_back
    add_item emplace contains insert
test_server_config-items = refl

abbrev port_number : Bytes → Option ℤ
port_number bytes = some (pos 13001)

abbrev pub new_process : Process
new_process = record { is_init = false }

-- The pipe has the descriptors 3 and 4, epoll 5, and the server 6.
abbrev pub module_up : IoModule
module_up = record {
  state = initialized;
  wakeup_read_fd = pos 3;
  wakeup_write_fd = pos 4;
  epoll_fd = pos 5;
  max_epoll_size = pos 1024;
  epoll_events = true;
  io_members = [];
  members_locked = false;
}

abbrev pub machine_up : Machine
machine_up = record idle { opened = pos 5 ∷ pos 4 ∷ pos 3 ∷ [] }

process_up :
    Process.init machine new_process new_io_module idle
    ≡ (success, record { is_init = true }, module_up, machine_up, true)
unfolding Process.init Events.init Events.start Events.deinit new_io_module modify_epoll_event
process_up = refl

abbrev ready_server : TcpIoServer
ready_server = record new_tcp_io_server {
  ip = ip;
  port = pos 13001;
  max_connection_number = pos 9;
  client = some 7;
  state = initialized;
}

abbrev listening : TcpIoServer
listening = record ready_server {
  state = started;
  socket_fd = pos 6;
  io_entry = some (record { object = 0; fd = pos 6 });
}

abbrev with_helper : Machine → WithHelper Machine
with_helper w = record { func_helper = some (record { has_serialer = true }); world = w }

server_up :
    Server.start (kernel machine) 0 ready_server module_up (with_helper machine_up)
    ≡ some (
      success,
      listening,
      record module_up { io_members = (pos 6, 0) ∷ [] },
      with_helper (record machine_up { opened = pos 6 ∷ machine_up.opened }),
    )
unfolding Server.start add_io_member contains insert new_tcp_io_server
server_up = refl

main_serves_example :
    (p : Program Machine) × (s : Service (WithHelper Machine)) × (set_up packer screen sized_pairs
        sized_strings machine port_number
        (pos 9)
        7
        0
        (some test_server_config)
        new_process
        new_io_module
        idle
      ≡ some p)
    × (p.service_entry.service_impl ≡ some s)
    × (s.io_server ≡ some listening)
    × (listening.ip ≡ ip)
    × (listening.port ≡ pos 13001)
    × (listening.state ≡ started)
    × (handle_data packer s
          (some (request packer sized_pairs rpc_service_deric_test_add (pos 5) (pos 1, pos 2)))
          []
          p.world
        ≡ (
          success,
          reply_with packer sized_ints rpc_service_deric_test_add (pos 5) (int_add (pos 1) (pos 2)),
          record p.world {
            world =
                screen.print_line
                  (shown b'+' (pos 1) (pos 2) (int_add (pos 1) (pos 2)))
                  p.world.world;
          },
        ))
    × (handle_data packer s
          (some (request packer sized_pairs rpc_service_deric_test_minor (pos 5) (pos 1, pos 2)))
          []
          p.world
        ≡ (
          success,
          reply_with packer sized_ints rpc_service_deric_test_minor
              (pos 5)
              (int_sub (pos 1) (pos 2)),
          record p.world {
            world =
                screen.print_line
                  (shown b'-' (pos 1) (pos 2) (int_add (pos 1) (pos 2)))
                  p.world.world;
          },
        ))
    × (handle_data packer s
          (some (request packer sized_strings rpc_service_deric_test_hello (pos 5) (b'x' ∷ [])))
          []
          p.world
        ≡ (success, [], record p.world { world = screen.print_line (b'x' ∷ []) p.world.world }))
unfolding lookup
main_serves_example =
    main_serves packer screen sized_pairs sized_strings machine port_number (pos 9) 7 0
      (some test_server_config) items ip port (pos 13001) listening new_process
      (record { is_init = true }) new_io_module module_up
      (record module_up { io_members = (pos 6, 0) ∷ [] }) idle machine_up
      (with_helper (record machine_up { opened = pos 6 ∷ machine_up.opened })) success success true
      (pos 5) (pos 1) (pos 2) (b'x' ∷ []) sized_ints-RoundTrips sized_strings-RoundTrips
      sized_pairs-RoundTrips sized_strings-RoundTrips process_up test_server_config-items refl refl
      refl server_up

abbrev serving : Service (WithHelper Machine)
serving = serving_service packer screen sized_pairs sized_strings machine listening

abbrev running : Program Machine
running = record {
  process = record { is_init = true };
  io_module = record module_up { io_members = (pos 6, 0) ∷ [] };
  service_entry = record { service_name = rpc_service_deric_test; service_impl = some serving };
  world = with_helper (record machine_up { opened = pos 6 ∷ machine_up.opened });
}

abbrev stopped : Service (WithHelper Machine)
stopped = record serving {
  state = initialized;
  io_server =
      some (record listening { state = initialized; socket_fd = negsuc 0; io_entry = none });
}

stopping :
    Service.stop
      (kernel machine)
      serving
      running.io_module
      (record running.world { world = screen.print_line close_line running.world.world })
    ≡ some
        (success, stopped, module_up, with_helper (record machine_up { handled = close_line ∷ [] }))
unfolding Service.stop Server.stop remove_io_member modify_epoll_event contains erase
    new_tcp_io_server new_service
stopping = refl

exit_leaves_minor_example :
    (p' : Program Machine) × (s' : Service (WithHelper Machine)) × (read_lines packer screen
        sized_pairs sized_strings machine
        ((b'x' ∷ []) ∷ exit_line ∷ [])
        running
      ≡ some (true, p'))
    × (p'.service_entry.service_impl ≡ some s')
    × (s'.state ≡ created)
    × (lookup rpc_service_deric_test_hello s'.functions ≡ none)
    × (lookup rpc_service_deric_test_add s'.functions ≡ none)
    × (lookup rpc_service_deric_test_minor s'.functions
        ≡ lookup rpc_service_deric_test_minor serving.functions)
exit_leaves_minor_example =
    exit_leaves_minor packer screen sized_pairs sized_strings machine ((b'x' ∷ []) ∷ []) [] running
      serving stopped listening module_up
      (with_helper (record machine_up { handled = close_line ∷ [] })) success (refl, tt) refl refl
      refl refl stopping
