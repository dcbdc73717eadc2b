-- ===== src/Io/Events.antt =====
-- IoModule: deric_rpc/io/src/io_module.cpp and its header. Each function is one call of a method,
-- run while no other thread holds its locks. `members_locked` says that a call has ended with
-- `m_ioMembersMutex` locked; a call that then locks it never returns, which is `none`.
-- `m_instanceMutex` is unlocked on every path and needs no such field. `new[]` never gives null, so
-- the branch for it in `init` is left out.
pub mod Loop
pub mod Members
pub mod Lifecycle
use deric_rpc.Prelude.{
  ℕ, Bool, true, false, not, ◌||◌, [], Option, none, some, ℤ, pos, failure, success, is_neg,
  if◌then◌else◌, Dict, insert, erase, contains, int_equality,
}
use deric_rpc.Common.{
  ComponentState, created, initialized, started, is_created, is_initialized, is_started,
}
use deric_rpc.Os.{Kernel, EpollOp, epoll_add, epoll_del}

pub record IoModule : Type 0 where
  pub state : ComponentState
  pub wakeup_read_fd : ℤ
  pub wakeup_write_fd : ℤ
  pub epoll_fd : ℤ
  pub max_epoll_size : ℤ
  -- Whether `m_epollEvents` points to an array.
  pub epoll_events : Bool
  -- The objects, by the descriptor that they were added under.
  pub io_members : Dict ℤ ℕ
  pub members_locked : Bool

-- A member as a caller hands it over: the object, and what its `getFd` returns.
pub record IoMember : Type 0 where
  pub object : ℕ
  pub fd : ℤ

abbrev pub io_module_stop_flag : ℕ
io_module_stop_flag = b'0'

abbrev pub io_module_wakeup_flag : ℕ
io_module_wakeup_flag = b'1'

unfoldable pub new_io_module : IoModule
new_io_module = record {
  state = created;
  wakeup_read_fd = failure;
  wakeup_write_fd = failure;
  epoll_fd = failure;
  max_epoll_size = success;
  epoll_events = false;
  io_members = [];
  members_locked = false;
}

module _ {W : Type 0} (os : Kernel W) where
  -- From the call of `epoll_create1` on.
  init_epoll : ℤ → ℤ → IoModule → W → ℤ × IoModule × W
  init_epoll res size m w =
      let (fd, w₁) = os.epoll_create w in
      if is_neg fd
      then (
        failure,
        record m { epoll_fd = fd },
        os.close m.wakeup_write_fd (os.close m.wakeup_read_fd w₁),
      )
      else (
        res,
        record m { epoll_fd = fd; max_epoll_size = size; epoll_events = true; state = initialized },
        w₁,
      )

  unfoldable pub init : ℤ → IoModule → W → ℤ × IoModule × W
  unfolding init_epoll
  init size m w =
      if not (is_created m.state)
      then (success, m, w)
      else let (res, read_fd, write_fd, w₁) = os.pipe w in
        if is_neg res
        then (res, m, w₁)
        else init_epoll res size (record m { wakeup_read_fd = read_fd; wakeup_write_fd = write_fd })
            w₁

  unfoldable pub deinit : IoModule → W → ℤ × IoModule × W
  deinit m w = if not (is_initialized m.state) then (failure, m, w) else (
    success,
    record m {
      state = created;
      wakeup_read_fd = pos 0;
      wakeup_write_fd = pos 0;
      epoll_fd = failure;
      epoll_events = false;
    },
    os.close m.wakeup_write_fd (os.close m.wakeup_read_fd (os.close m.epoll_fd w)),
  )

  unfoldable pub modify_epoll_event : EpollOp → ℤ → IoModule → W → ℤ × W
  modify_epoll_event op fd m w =
      if is_neg m.epoll_fd || is_created m.state
      then (failure, w)
      else if is_neg fd
      then (failure, w)
      else os.epoll_ctl op m.epoll_fd fd w

  -- The second part says whether a thread that runs `waitThreadFunc` was started. The state
  -- becomes `started` only in that thread.
  unfoldable pub start : IoModule → W → ℤ × Bool × W
  unfolding modify_epoll_event
  start m w =
      if not (is_initialized m.state)
      then (failure, false, w)
      else let (res, w₁) = modify_epoll_event epoll_add m.wakeup_read_fd m w in
        if is_neg res then (res, false, w₁) else (res, true, w₁)

  unfoldable pub stop : IoModule → W → ℤ × IoModule × W
  stop m w =
      if not (is_started m.state)
      then (failure, m, w)
      else if is_neg m.wakeup_write_fd
      then (failure, m, w)
      else let (res, w₁) = os.write_byte m.wakeup_write_fd io_module_stop_flag w in
        if is_neg res then (res, m, w₁) else (res, record m { state = initialized }, w₁)

  unfoldable pub wakeup_module : IoModule → W → W
  wakeup_module m w =
      if not (is_started m.state)
      then w
      else if is_neg m.wakeup_write_fd
      then w
      else (os.write_byte m.wakeup_write_fd io_module_wakeup_flag w).1

  -- `addIoMember` behind the check of its parameter.
  add_member : IoMember → IoModule → W → Option (ℤ × IoModule × W)
  unfolding modify_epoll_event wakeup_module
  add_member member m w =
      if m.members_locked
      then none
      else if contains member.fd m.io_members
      then some (success, record m { members_locked = true }, w)
      else let m₁ = record m { io_members = insert member.fd member.object m.io_members } in
        let (res, w₁) = modify_epoll_event epoll_add member.fd m₁ w in
        some (res, m₁, wakeup_module m₁ w₁)

  unfoldable pub add_io_member : Option IoMember → IoModule → W → Option (ℤ × IoModule × W)
  unfolding add_member
  add_io_member none m w = some (failure, m, w)
  add_io_member (some member) m w =
      if is_neg member.fd then some (failure, m, w) else add_member member m w

  unfoldable pub remove_io_member : Option IoMember → IoModule → W → Option (ℤ × IoModule × W)
  unfolding modify_epoll_event
  remove_io_member none m w = some (failure, m, w)
  remove_io_member (some member) m w =
      if m.members_locked
      then none
      else if not (contains member.fd m.io_members)
      then some (failure, record m { members_locked = true }, w)
      else let m₁ = record m { io_members = erase member.fd m.io_members } in
        let (res, w₁) = modify_epoll_event epoll_del member.fd m₁ w in some (res, m₁, w₁)
