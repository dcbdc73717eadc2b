-- ===== src/Tests/Entries.antt =====
-- A service that is set up through RpcServiceEntry.
use deric_rpc.Prelude.{
  ℤ, pos, success, Bytes, [], ◌∷◌, ◌≡◌, refl, true, false, some, arith, Dict, contains, insert,
  bytes_equality, nat_equality,
}
use deric_rpc.Common.{initialized, started}
use deric_rpc.Config.{get_value}
use deric_rpc.Config
use deric_rpc.Config.File.{Entry, IsPlain, render}
use deric_rpc.Io.Events.{add_io_member, modify_epoll_event, wakeup_module}
use deric_rpc.Io
use deric_rpc.Io.Server.{TcpIoServer, new_tcp_io_server}
use deric_rpc.Function.{exec_result, set_serialer}
use deric_rpc.Server.Service
use deric_rpc.Server.Service.{Service, new_service, create_io_connection_client}
use deric_rpc.Server.Registry
use deric_rpc.Server.Registry.{handle_data, handle_command}
use deric_rpc.Server.Registry.Methods.{answer}
use deric_rpc.Server.Registry.Table.{registers, unregisters, run, replay, table_of, run-replay}
use deric_rpc.Server.Entry.{WithHelper, ServiceEntry, init, start, register_method, locked}
use deric_rpc.Server.Entry.Configured.{init-file}
use deric_rpc.Client.Entry.{request}
use deric_rpc.Rpc.Messages.{reply_with}
use deric_rpc.Rpc.Setup.{exec_over, call_registered_early}
use deric_rpc.Tests.Hosts.{name, word, shout, packs}
use deric_rpc.Tests.Calls.{helper}
use deric_rpc.Tests.Machine.{Machine, machine, idle}
use deric_rpc.Tests.Events.{events}
use deric_rpc.Tests.Clients.{always_eighty, machine_service}
use deric_rpc.Tests.Packer.{packer, sized_strings}

abbrev address : Entry
address = record {
  front = b'I' ∷ [];
  last = b'P';
  blanks_before = 1;
  blanks_behind = 0;
  first = b'0';
  rest = [];
}

abbrev port : Entry
port = record {
  front = b'P' ∷ b'o' ∷ b'r' ∷ [];
  last = b't';
  blanks_before = 0;
  blanks_behind = 1;
  first = b'8';
  rest = b'0' ∷ [];
}

address-IsPlain : IsPlain address
address-IsPlain = record {
  no_equals = ((λ e. omega arith), ((λ e. omega arith), tt));
  no_comment = refl;
  key_end = λ e. omega arith;
  value_begin = λ e. omega arith;
  key_on_line = ((λ e. omega arith), ((λ e. omega arith), tt));
  value_on_line = ((λ e. omega arith), tt);
}

port-IsPlain : IsPlain port
port-IsPlain = record {
  no_equals =
      ((λ e. omega arith), ((λ e. omega arith), ((λ e. omega arith), ((λ e. omega arith), tt))));
  no_comment = refl;
  key_end = λ e. omega arith;
  value_begin = λ e. omega arith;
  key_on_line =
      ((λ e. omega arith), ((λ e. omega arith), ((λ e. omega arith), ((λ e. omega arith), tt))));
  value_on_line = ((λ e. omega arith), ((λ e. omega arith), tt));
}

abbrev machine_new : Service Machine
machine_new = new_service name

abbrev fresh : ServiceEntry Machine
fresh = record { service_name = name; service_impl = some (new_service name) }

abbrev unready : WithHelper Machine
unready = record { func_helper = some (record { has_serialer = false }); world = idle }

abbrev ready : WithHelper Machine
ready = record { func_helper = some (record { has_serialer = true }); world = idle }

init-file_example :
    (items : Dict Bytes Bytes) × (s' : Service (WithHelper Machine)) × (t : TcpIoServer)
    × (Config.init (some (render (address ∷ port ∷ []))) [] ≡ some (success, items))
    × (init always_eighty (pos 9) (λ key val. get_value key val items) 7 fresh unready
        ≡ some (some success, record fresh { service_impl = some s' }, ready))
    × (s'.state ≡ initialized)
    × (s'.has_serialer ≡ true)
    × (s'.functions ≡ [])
    × (s'.io_server ≡ some t)
    × (t.state ≡ initialized)
    × (t.ip ≡ b'0' ∷ [])
    × (t.port ≡ pos 80)
    × (t.client ≡ some 7)
unfolding new_service
init-file_example =
    init-file always_eighty (pos 9) 7 (address ∷ port ∷ []) (b'0' ∷ []) (b'8' ∷ b'0' ∷ []) (pos 80)
      (record { has_serialer = false }) (new_service name) fresh unready
      (address-IsPlain, (port-IsPlain, tt)) refl refl refl refl refl refl

abbrev listed : Bytes → Bytes → ℤ × Bytes
listed key val = (success, b'8' ∷ [])

abbrev shouting : Service (WithHelper Machine)
shouting = record (new_service name) {
  functions = (name, locked (exec_over packer machine sized_strings sized_strings shout name)) ∷ [];
}

abbrev port_eighty : TcpIoServer
port_eighty = record new_tcp_io_server {
  state = initialized;
  ip = b'8' ∷ [];
  port = pos 80;
  max_connection_number = pos 9;
  client = some 7;
}

abbrev set_up : Service (WithHelper Machine)
set_up = record shouting { state = initialized; has_serialer = true; io_server = some port_eighty }

abbrev running : Service (WithHelper Machine)
running = record set_up {
  state = started;
  io_server = some (record port_eighty {
    state = started;
    socket_fd = pos 3;
    io_entry = some (record { object = 0; fd = pos 3 });
  });
}

abbrev listening : WithHelper Machine
listening = record ready { world = record idle { opened = pos 3 ∷ [] } }

call_registered_early_example :
    (success ≡ success)
    × (s' : Service (WithHelper Machine)) × ((record fresh {
      service_impl = some running;
    }).service_impl
        ≡ some s')
    × (handle_data packer s' (some (request packer sized_strings name (pos 7) word)) [] listening
        ≡ (success, reply_with packer sized_strings name (pos 7) (b'!' ∷ word), listening))
unfolding contains register_method Registry.register_method init set_serialer Service.init
    Io.Server.init start Service.start Io.Server.start add_io_member modify_epoll_event
    wakeup_module insert new_tcp_io_server new_service
call_registered_early_example =
    call_registered_early packer machine sized_strings sized_strings shout name always_eighty
      (pos 9) listed 7 0 (new_service name) (record { has_serialer = false }) fresh
      (record fresh { service_impl = some shouting }) (record fresh { service_impl = some set_up })
      (record fresh { service_impl = some running }) events
      (record events { io_members = (pos 7, 1) ∷ (pos 3, 0) ∷ [] }) unready ready listening success
      (pos 7) word packs refl refl refl refl refl refl refl

run-replay_example :
    let func = exec_result packer sized_strings sized_strings helper shout in
    let changes = registers name func ∷ registers name func ∷ unregisters name ∷ [] in
    let (results, s') = run changes machine_service in
    let (expected, f) = replay changes (table_of machine_service) in
    (results ≡ expected)
    × (table_of s' ≡ f)
    × (handle_command name s' word [] idle ≡ answer (f name) word [] idle)
run-replay_example =
    run-replay
      (registers name (exec_result packer sized_strings sized_strings helper shout)
        ∷ registers name (exec_result packer sized_strings sized_strings helper shout)
        ∷ unregisters name
        ∷ [])
      machine_service name word [] idle
