-- ===== src/Io/Events/Loop.antt =====
-- `IoModule::waitThreadFunc` of deric_rpc/io/src/io_module.cpp. What `epoll_wait` reports is given
-- as a list of rounds; the loop is still waiting when they are used up. `none` stands for a call
-- that waits for a mutex for ever.
use deric_rpc.Prelude.{
  ℕ, Bool, true, false, not, ◌||◌, List, [], ◌∷◌, ◌++◌, Option, none, some, ◌>>=◌, ℤ, int_beq,
  nat_beq, ◌≡◌, if◌then◌else◌, lookup, erase, int_equality,
}
use deric_rpc.Common.{
  initialized, started, IoMemberError, epoll_failed, IoMemberErrorAction, keep, delete,
}
use deric_rpc.Os.{Kernel, epoll_del}
use deric_rpc.Io.Events.{IoModule, modify_epoll_event, io_module_stop_flag, io_module_wakeup_flag}

-- An entry of `m_epollEvents`: the descriptor, and the bits EPOLLIN, EPOLLERR and EPOLLHUP.
pub record EpollEvent : Type 0 where
  pub fd : ℤ
  pub readable : Bool
  pub error : Bool
  pub hang_up : Bool

-- Input on a descriptor, with neither an error nor a hang-up.
pub record IsReadable (ev : EpollEvent) (fd : ℤ) : Type 0 where
  pub on_fd : ev.fd ≡ fd
  pub input : ev.readable ≡ true
  pub no_error : ev.error ≡ false
  pub no_hang_up : ev.hang_up ≡ false

-- The virtual methods of the registered objects. They may call the module again.
pub record IoMembers (W : Type 0) : Type 0 where
  pub on_read_available : ℕ → IoModule → W → Option (ℤ × IoModule × W)
  pub on_io_error : ℕ → IoMemberError → IoModule → W → Option (IoMemberErrorAction × IoModule × W)

-- The local variables that live across events.
pub record Pending : Type 0 where
  pub wakeup_flag : ℕ
  pub close_fds : List ℤ

abbrev flag_or : Option ℕ → ℕ → ℕ
flag_or none flag = flag
flag_or (some byte) flag = byte

abbrev push_if : IoMemberErrorAction → ℤ → List ℤ → List ℤ
push_if keep fd fds = fds
push_if delete fd fds = fds ++ fd ∷ []

module _ {W : Type 0} (os : Kernel W) (members : IoMembers W) where
  call_member : ℕ → EpollEvent → Pending → IoModule → W → Option (Pending × IoModule × W)
  call_member object ev p m w =
      if ev.error || ev.hang_up || not ev.readable
      then (do
        (action, m', w') ← members.on_io_error object epoll_failed m w
        some (record p { close_fds = push_if action ev.fd p.close_fds }, m', w'))
      else (do (_, m', w') ← members.on_read_available object m w; some (p, m', w'))

  -- The body of the loop over one round's events.
  unfoldable pub handle_event :
      EpollEvent → Pending → IoModule → W → Option (Pending × IoModule × W)
  unfolding call_member
  handle_event ev p m w =
      if int_beq ev.fd m.wakeup_read_fd
      then (let (byte, w') = os.read_byte ev.fd w in
          some (record p { wakeup_flag = flag_or byte p.wakeup_flag }, m, w'))
      else if m.members_locked
      then none
      else elim (lookup ev.fd m.io_members) [
        | none ↦ some (p, m, w)
        | some object ↦ call_member object ev p m w
      ]

  unfoldable pub handle_events :
      List EpollEvent → Pending → IoModule → W → Option (Pending × IoModule × W)
  handle_events [] p m w = some (p, m, w)
  handle_events (ev ∷ evs) p m w = do
    (p', m', w') ← handle_event ev p m w
    handle_events evs p' m' w'

  unfoldable pub close_members : List ℤ → IoModule → W → Option (IoModule × W)
  close_members [] m w = some (m, w)
  close_members (fd ∷ fds) m w =
      let (_, w') = modify_epoll_event os epoll_del fd m w in
      let rest = close_members fds (record m { io_members = erase fd m.io_members }) w' in
      if m.members_locked then none else rest

  -- The result says whether the loop has ended.
  unfoldable pub wait_loop :
      List (List EpollEvent) → Pending → IoModule → W → Option (Bool × IoModule × W)
  wait_loop [] p m w = some (false, m, w)
  wait_loop (evs ∷ rounds) p m w = do
    (p₁, m₁, w₁) ← handle_events evs p m w
    (m₂, w₂) ← close_members p₁.close_fds m₁ w₁
    let rest = wait_loop rounds (record p₁ { close_fds = [] }) m₂ w₂
    if nat_beq p₁.wakeup_flag io_module_stop_flag
        then some (true, record m₂ { state = initialized }, w₂)
        else rest

  unfoldable pub wait_thread_func :
      List (List EpollEvent) → IoModule → W → Option (Bool × IoModule × W)
  wait_thread_func rounds m w =
      wait_loop rounds (record { wakeup_flag = io_module_wakeup_flag; close_fds = [] })
        (record m { state = started }) w
