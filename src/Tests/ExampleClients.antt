-- ===== src/Tests/ExampleClients.antt =====
-- The example client, with its own configuration file and service book, example/test_service_book,
-- on a machine where every connection is refused.
use deric_rpc.Prelude.{
  arith, ℤ, pos, failure, success, Bytes, [], ◌∷◌, ◌≡◌, refl, true, Option, none, some, Dict,
  lookup, contains, insert, bytes_equality, inr,
}
use deric_rpc.Common.{returns}
use deric_rpc.Os.{Kernel}
use deric_rpc.Io.Connection.{new_connection, set_io_client, start_to}
use deric_rpc.Io.Events.{new_io_module, modify_epoll_event}
use deric_rpc.Io.Events
use deric_rpc.Config.{
  find_byte, find_other, skip_back, emplace, add_item, parse_from, parse_line, lines, parse_lines,
  get_value,
}
use deric_rpc.Config
use deric_rpc.Process
use deric_rpc.Client.Impl.{ClientImpl, new_client_impl, register_message_callback}
use deric_rpc.Client.Impl
use deric_rpc.Client.Entry.{ClientEntry, new_client_entry, init}
use deric_rpc.Client.Entry.Connect.{connect}
use deric_rpc.Example.Api.{
  rpc_service_deric_test, rpc_service_deric_test_hello, rpc_service_deric_test_add,
  rpc_service_deric_test_minor,
}
use deric_rpc.Example.Client.{Wait, failed_line, run_client}
use deric_rpc.Example.Client.Failing.{run_client_fails}
use deric_rpc.Tests.Examples.{screen, sized_pairs, new_process, module_up, machine_up}
use deric_rpc.Tests.Machine.{Machine, machine, recorder, idle}
use deric_rpc.Tests.Packer.{packer, sized_strings}

abbrev refusing : Kernel Machine
refusing = record machine { connect = λ fd ip port w. (failure, w) }

abbrev test_client_config : Bytes
test_client_config =
    b'S' ∷ b'e' ∷ b'r' ∷ b'v' ∷ b'i' ∷ b'c' ∷ b'e' ∷ b'B' ∷ b'o' ∷ b'o' ∷ b'k' ∷ b' ' ∷ b'=' ∷ b' '
    ∷ b'.' ∷ b'.' ∷ b'/' ∷ b't' ∷ b'e' ∷ b's' ∷ b't' ∷ b'_' ∷ b's' ∷ b'e' ∷ b'r' ∷ b'v' ∷ b'i'
    ∷ b'c' ∷ b'e' ∷ b'_' ∷ b'b' ∷ b'o' ∷ b'o' ∷ b'k' ∷ []

abbrev test_service_book : Bytes
test_service_book =
    b'r' ∷ b'p' ∷ b'c' ∷ b'.' ∷ b's' ∷ b'e' ∷ b'r' ∷ b'v' ∷ b'i' ∷ b'c' ∷ b'e' ∷ b'.' ∷ b'd' ∷ b'e'
    ∷ b'r' ∷ b'i' ∷ b'c' ∷ b'.' ∷ b't' ∷ b'e' ∷ b's' ∷ b't' ∷ b'_' ∷ b'I' ∷ b'P' ∷ b' ' ∷ b'='
    ∷ b' ' ∷ b'1' ∷ b'2' ∷ b'7' ∷ b'.' ∷ b'0' ∷ b'.' ∷ b'1' ∷ b'.' ∷ b'1' ∷ b'\n' ∷ b'r' ∷ b'p'
    ∷ b'c' ∷ b'.' ∷ b's' ∷ b'e' ∷ b'r' ∷ b'v' ∷ b'i' ∷ b'c' ∷ b'e' ∷ b'.' ∷ b'd' ∷ b'e' ∷ b'r'
    ∷ b'i' ∷ b'c' ∷ b'.' ∷ b't' ∷ b'e' ∷ b's' ∷ b't' ∷ b'_' ∷ b'P' ∷ b'o' ∷ b'r' ∷ b't' ∷ b' '
    ∷ b'=' ∷ b' ' ∷ b'1' ∷ b'3' ∷ b'0' ∷ b'0' ∷ b'1' ∷ []

abbrev book_path : Bytes
book_path =
    b'.' ∷ b'.' ∷ b'/' ∷ b't' ∷ b'e' ∷ b's' ∷ b't' ∷ b'_' ∷ b's' ∷ b'e' ∷ b'r' ∷ b'v' ∷ b'i' ∷ b'c'
    ∷ b'e' ∷ b'_' ∷ b'b' ∷ b'o' ∷ b'o' ∷ b'k' ∷ []

abbrev files : Bytes → Option Bytes
files path = some test_service_book

abbrev port_number : Bytes → Option ℤ
port_number bytes = some (pos 13001)

abbrev items : Dict Bytes Bytes
items =
    (b'S' ∷ b'e' ∷ b'r' ∷ b'v' ∷ b'i' ∷ b'c' ∷ b'e' ∷ b'B' ∷ b'o' ∷ b'o' ∷ b'k' ∷ [], book_path)
    ∷ []

test_client_config-items : Config.init (some test_client_config) [] ≡ some (success, items)
unfolding Config.init lines parse_lines parse_line parse_from find_byte find_other skip_back
    add_item emplace contains insert
test_client_config-items = refl

process_up :
    Process.init refusing new_process new_io_module idle
    ≡ (success, record { is_init = true }, module_up, machine_up, true)
unfolding Process.init Events.init Events.start Events.deinit new_io_module modify_epoll_event
process_up = refl

abbrev impl : ClientImpl
impl = record { io_connection = none; has_callback = true }

abbrev unconnected : ClientEntry
unconnected = record {
  has_serialer = true;
  client_impl = some impl;
  service_book = book_path;
  waiting_items = [];
}

refused :
    connect refusing recorder port_number files rpc_service_deric_test 1 2
      (init (some book_path) new_client_entry).1
      module_up
      machine_up
    ≡ some (returns (failure, unconnected, module_up, machine_up))
unfolding connect Config.init lines parse_lines parse_line parse_from find_byte find_other skip_back
    add_item emplace contains insert lookup get_value init new_client_entry new_client_impl
    register_message_callback Impl.connect new_connection set_io_client start_to
refused = refl

abbrev unending : Wait Machine
unending id s c w = none

run_client_fails_example :
    run_client packer screen sized_pairs sized_strings refusing recorder port_number files unending
      (pos 9)
      0
      1
      2
      (some test_client_config)
      new_process
      new_io_module
      idle
    ≡ some (record {
      process = record { is_init = true };
      io_module = module_up;
      client_entry = new_client_entry;
      world = record machine_up {
        handled =
            failed_line rpc_service_deric_test_add
            ∷ failed_line rpc_service_deric_test_hello
            ∷ failed_line rpc_service_deric_test_minor
            ∷ [];
      };
    })
unfolding lookup
run_client_fails_example =
    run_client_fails packer screen sized_pairs sized_strings refusing recorder port_number files
      unending (pos 9) 0 1 2 (some test_client_config) items new_process (record { is_init = true })
      new_io_module module_up module_up idle machine_up machine_up unconnected success success
      failure true (omega arith) process_up test_client_config-items refused
      (inr (impl, refl, refl))
