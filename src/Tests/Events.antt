-- ===== src/Tests/Events.antt =====
-- An event module with one member, its thread, and the process and the server that use it.
use deric_rpc.Prelude.{
  ℤ, pos, is_neg, failure, success, [], ◌∷◌, ◌≡◌, ◌⊎◌, refl, true, false, none, some, lookup,
  contains, int_equality,
}
use deric_rpc.Common.{created, initialized, started, keep}
use deric_rpc.Os.{Kernel}
use deric_rpc.Io.Events.{io_module_stop_flag, IoModule, IoMember, add_io_member, remove_io_member}
use deric_rpc.Io.Events.Loop.{EpollEvent, IoMembers, Pending}
use deric_rpc.Io.Events.Members.{Blocks, add_io_member_again, remove-add_io_member}
use deric_rpc.Io.Server.{TcpIoServer}
use deric_rpc.Process.{Process}
use deric_rpc.Process
use deric_rpc.Process.Lifecycle.{init_outcome_of_process}
use deric_rpc.Tests.Machine.{Machine, machine, idle}

abbrev pub events : IoModule
events = record {
  state = initialized;
  wakeup_read_fd = pos 3;
  wakeup_write_fd = pos 4;
  epoll_fd = pos 5;
  max_epoll_size = pos 1024;
  epoll_events = true;
  io_members = (pos 7, 1) ∷ [];
  members_locked = false;
}

abbrev new_module : IoModule
new_module = record events { state = created; io_members = [] }

abbrev seven : IoMember
seven = record { object = 2; fd = pos 7 }

abbrev eight : IoMember
eight = record { object = 3; fd = pos 8 }

-- Members that do nothing.
abbrev still : IoMembers Machine
still = record {
  on_read_available = λ object m w. some (success, m, w);
  on_io_error = λ object e m w. some (keep, m, w);
}

abbrev readable_on : ℤ → EpollEvent
readable_on fd = record { fd = fd; readable = true; error = false; hang_up = false }

abbrev nothing_yet : Pending
nothing_yet = record { wakeup_flag = b'1'; close_fds = [] }

add_io_member_again_example :
    (m' : IoModule) × (add_io_member machine (some seven) events idle ≡ some (success, m', idle))
    × (m'.io_members ≡ events.io_members)
    × Blocks machine m'
unfolding contains
add_io_member_again_example = add_io_member_again machine seven events idle refl refl refl

remove-add_io_member_example :
    (r₁ r₂ : ℤ) × (m₁ m₂ : IoModule) × (w₁ w₃ : Machine) × (add_io_member machine
        (some eight)
        events
        idle
      ≡ some (r₁, m₁, w₁))
    × (lookup (pos 8) m₁.io_members ≡ some 3)
    × (remove_io_member machine (some eight) m₁ idle ≡ some (r₂, m₂, w₃))
    × (lookup (pos 7) m₂.io_members ≡ lookup (pos 7) events.io_members)
    × (m₂.members_locked ≡ false)
unfolding contains
remove-add_io_member_example =
    remove-add_io_member machine eight events idle idle (pos 7) refl refl refl

-- A machine whose pipes hold the stop flag.
abbrev stopping : Kernel Machine
stopping = record machine { read_byte = λ fd w. (some io_module_stop_flag, w) }

abbrev pub server : TcpIoServer
server = record {
  state = initialized;
  ip = [];
  port = pos 80;
  max_connection_number = pos 8;
  socket_fd = failure;
  client = some 1;
  io_entry = none;
}

abbrev listening : TcpIoServer
listening = record server { state = started; socket_fd = pos 7; io_entry = some seven }

abbrev fresh_process : Process
fresh_process = record { is_init = false }

abbrev running : Process
running = record { is_init = true }

init_outcome_of_process_example :
    let (res, p', m', w', spawned) = Process.init machine fresh_process new_module idle in
    ((is_neg res ≡ false) × (p'.is_init ≡ true) × (m'.state ≡ initialized) × (spawned ≡ true))
    ⊎ ((is_neg res ≡ true) × (p'.is_init ≡ false) × (m'.state ≡ created) × (spawned ≡ false))
init_outcome_of_process_example =
    init_outcome_of_process machine fresh_process new_module idle refl refl
