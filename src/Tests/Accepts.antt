-- ===== src/Tests/Accepts.antt =====
-- A server that accepts a connection, and a client that finds its service in a book.
use deric_rpc.Prelude.{
  ℕ, pos, success, Bytes, [], ◌∷◌, ◌≡◌, refl, true, false, Option, some, arith, lookup, contains,
  int_equality, nat_equality, Bool,
}
use deric_rpc.Common.{started}
use deric_rpc.Io.Events.{IoModule}
use deric_rpc.Io.Server.{TcpIoServer}
use deric_rpc.Server.Service.{Service}
use deric_rpc.Server.Accept.{on_connect_request, started_entry, on_connect_request_admits}
use deric_rpc.Config.File.{Entry, IsPlain, render}
use deric_rpc.Client.Impl.{ClientImpl}
use deric_rpc.Client.Impl
use deric_rpc.Client.Entry.{ClientEntry}
use deric_rpc.Client.Entry.Connect.{connect, connected, connect_reads_book}
use deric_rpc.Tests.Events.{events, server}
use deric_rpc.Tests.Machine.{Machine, machine, recorder, idle}
use deric_rpc.Tests.Clients.{machine_service, new_client, always_eighty}

abbrev accepting : TcpIoServer
accepting = record server { state = started; socket_fd = pos 9 }

abbrev always : Machine → Bool
always w = true

on_connect_request_admits_example :
    (s' : Service Machine) × (m' : IoModule) × (w' : Machine) × (on_connect_request machine recorder
        always 2 3 0 accepting machine_service events idle
      ≡ some (success, s', 1, m', w'))
    × (lookup 1 s'.clients ≡ some (started_entry machine recorder always 1 2 3 3))
    × (lookup (pos 3) m'.io_members ≡ some 3)
    × (m'.members_locked ≡ false)
unfolding contains
on_connect_request_admits_example =
    on_connect_request_admits machine recorder always 2 3 0 1 3 accepting machine_service events
      idle refl refl refl refl refl refl refl

abbrev line_for : Bytes → ℕ → ℕ → Entry
line_for front last value = record {
  front = front;
  last = last;
  blanks_before = 0;
  blanks_behind = 1;
  first = value;
  rest = [];
}

-- `a_IP= 1` and `a_Port= 8`.
abbrev ip_line : Entry
ip_line = line_for (b'a' ∷ b'_' ∷ b'I' ∷ []) b'P' b'1'

abbrev port_line : Entry
port_line = line_for (b'a' ∷ b'_' ∷ b'P' ∷ b'o' ∷ b'r' ∷ []) b't' b'8'

ip_line-IsPlain : IsPlain ip_line
ip_line-IsPlain = record {
  no_equals =
      ((λ e. omega arith), ((λ e. omega arith), ((λ e. omega arith), ((λ e. omega arith), tt))));
  no_comment = refl;
  key_end = λ e. omega arith;
  value_begin = λ e. omega arith;
  key_on_line =
      ((λ e. omega arith), ((λ e. omega arith), ((λ e. omega arith), ((λ e. omega arith), tt))));
  value_on_line = ((λ e. omega arith), tt);
}

port_line-IsPlain : IsPlain port_line
port_line-IsPlain = record {
  no_equals = (
    (λ e. omega arith),
    (
      (λ e. omega arith),
      ((λ e. omega arith), ((λ e. omega arith), ((λ e. omega arith), ((λ e. omega arith), tt)))),
    ),
  );
  no_comment = refl;
  key_end = λ e. omega arith;
  value_begin = λ e. omega arith;
  key_on_line = (
    (λ e. omega arith),
    (
      (λ e. omega arith),
      ((λ e. omega arith), ((λ e. omega arith), ((λ e. omega arith), ((λ e. omega arith), tt)))),
    ),
  );
  value_on_line = ((λ e. omega arith), tt);
}

abbrev disconnected : ClientEntry
disconnected = record {
  has_serialer = true;
  client_impl = some new_client;
  service_book = [];
  waiting_items = [];
}

abbrev files : Bytes → Option Bytes
files path = some (render (ip_line ∷ port_line ∷ []))

connect_reads_book_example :
    connect machine recorder always_eighty files (b'a' ∷ []) 1 2 disconnected events idle
    ≡ some (
        connected machine recorder always_eighty disconnected (
          Impl.connect machine recorder always_eighty
            (record { service_ip = b'1' ∷ []; service_port = b'8' ∷ [] })
            1
            2
            new_client
            events
            idle))
connect_reads_book_example =
    connect_reads_book machine recorder always_eighty files (b'a' ∷ []) 1 2
      (ip_line ∷ port_line ∷ []) new_client disconnected events idle (b'1' ∷ []) (b'8' ∷ [])
      (ip_line-IsPlain, (port_line-IsPlain, tt)) refl refl refl refl
