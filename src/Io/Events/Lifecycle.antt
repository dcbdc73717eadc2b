-- ===== src/Io/Events/Lifecycle.antt =====
-- The life of the event module and of its thread: deric_rpc/io/src/io_module.cpp, `init`, `deinit`,
-- `stop` and `waitThreadFunc`.
use deric_rpc.Prelude.{
  ℤ, is_neg, failure, true, false, List, [], ◌∷◌, ◌≡◌, ◌⊎◌, arith, int_equality,
}
use deric_rpc.Common.{created, initialized}
use deric_rpc.Os.{Kernel}
use deric_rpc.Io.Events.{IoModule, init}
use deric_rpc.Io.Events.Loop.{EpollEvent}

-- Rounds that report one descriptor only.
abbrev AllOn : ℤ → List EpollEvent → Type 0
AllOn fd [] = Unit {0}
AllOn fd (ev ∷ evs) = (ev.fd ≡ fd) × AllOn fd evs

abbrev pub RoundsOn : ℤ → List (List EpollEvent) → Type 0
RoundsOn fd [] = Unit {0}
RoundsOn fd (evs ∷ rounds) = AllOn fd evs × RoundsOn fd rounds

module _ {W : Type 0} (os : Kernel W) where
  -- `init` of a module that is not initialized either succeeds, with an epoll descriptor that is not
  -- negative, or fails and leaves the state as it was; where the epoll descriptor is what failed,
  -- both ends of the new pipe have been closed.
  pub init_outcome :
      (size : ℤ) (m : IoModule) (w : W)
      → m.state ≡ created
      → let (res, m', w') = init os size m w in
        let (piped, read_fd, write_fd, w₁) = os.pipe w in
        let (fd, w₂) = os.epoll_create w₁ in
        ((is_neg res ≡ false) × (m'.state ≡ initialized) × (is_neg m'.epoll_fd ≡ false))
        ⊎ ((is_neg piped ≡ true) × (res ≡ piped) × (m' ≡ m) × (w' ≡ w₁))
        ⊎ ((is_neg fd ≡ true)
            × (res ≡ failure)
            × (m'.state ≡ created)
            × (w' ≡ os.close write_fd (os.close read_fd w₂)))
  unfolding init
  init_outcome size m w st = ground arith
