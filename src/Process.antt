-- ===== src/Process.antt =====
-- DericProcess and DericProcessEntry: deric_rpc/process/src/deric_process.cpp and
-- deric_process_entry.cpp, with their headers.
pub mod Lifecycle
use deric_rpc.Prelude.{ℕ, Bool, true, false, not, ℤ, pos, success, is_neg, if◌then◌else◌}
use deric_rpc.Os.{Kernel}
use deric_rpc.Io.Events.{IoModule}
use deric_rpc.Io.Events

pub record Process : Type 0 where
  pub is_init : Bool

unfoldable pub new_process : Process
new_process = record { is_init = false }

abbrev pub epoll_size : ℤ
epoll_size = pos 1024

module _ {W : Type 0} (os : Kernel W) where
  -- Behind the `init` of the event module. The last part of the result says whether its thread was
  -- started.
  start_module : Process → ℤ × IoModule × W → ℤ × Process × IoModule × W × Bool
  start_module p (res, m, w) =
      if is_neg res
      then (res, p, m, w, false)
      else let (r, spawned, w₁) = Events.start os m w in
        let (_, m₂, w₂) = Events.deinit os m w₁ in
        if is_neg r
        then (r, p, m₂, w₂, spawned)
        else (r, record p { is_init = true }, m, w₁, spawned)

  unfoldable pub init : Process → IoModule → W → ℤ × Process × IoModule × W × Bool
  unfolding start_module
  init p m w =
      if p.is_init
      then (success, p, m, w, false)
      else start_module p (Events.init os epoll_size m w)

  -- Behind the `stop` of the event module.
  deinit_module : Process → ℤ × IoModule × W → ℤ × Process × IoModule × W
  deinit_module p (res, m, w) =
      if is_neg res
      then (res, p, m, w)
      else let (r, m₁, w₁) = Events.deinit os m w in
        if is_neg r then (r, p, m₁, w₁) else (r, record p { is_init = false }, m₁, w₁)

  unfoldable pub deinit : Process → IoModule → W → ℤ × Process × IoModule × W
  unfolding deinit_module
  deinit p m w = if not p.is_init then (success, p, m, w) else deinit_module p (Events.stop os m w)

  -- DericProcessEntry: the two calls on the one process object.
  abbrev pub entry_init : Process → IoModule → W → ℤ × Process × IoModule × W × Bool
  entry_init p m w = init p m w

  abbrev pub entry_deinit : Process → IoModule → W → ℤ × Process × IoModule × W
  entry_deinit p m w = deinit p m w
