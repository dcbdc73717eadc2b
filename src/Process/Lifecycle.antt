-- ===== src/Process/Lifecycle.antt =====
-- The start and the end of a process: deric_rpc/process/src/deric_process.cpp.
use deric_rpc.Prelude.{is_neg, failure, success, true, false, ◌≡◌, ◌⊎◌, refl, arith}
use deric_rpc.Common.{created, initialized, started}
use deric_rpc.Os.{Kernel}
use deric_rpc.Io.Events.{IoModule, modify_epoll_event, io_module_stop_flag}
use deric_rpc.Io.Events
use deric_rpc.Io.Events.Lifecycle.{init_outcome}
use deric_rpc.Process.{Process, init, deinit, epoll_size}

module _ {W : Type 0} (os : Kernel W) where
  start_outcome :
      (m : IoModule) (w : W)
      → m.state ≡ initialized
      → let (res, spawned, w') = Events.start os m w in
        ((is_neg res ≡ false) × (spawned ≡ true)) ⊎ ((is_neg res ≡ true) × (spawned ≡ false))
  unfolding Events.start
  start_outcome m w st = ground arith

  deinit_initialized :
      (m : IoModule) (w : W)
      → m.state ≡ initialized
      → ((Events.deinit os m w).0 ≡ success) × ((Events.deinit os m w).1.state ≡ created)
  unfolding Events.deinit
  deinit_initialized m w st = ground arith

  -- The first `init` of a process either succeeds, with the event module initialized and its thread
  -- started, or fails, with no thread and the event module back in the state `created`.
  pub init_outcome_of_process :
      (p : Process) (m : IoModule) (w : W)
      → p.is_init ≡ false
      → m.state ≡ created
      → let (res, p', m', w', spawned) = init os p m w in
        ((is_neg res ≡ false) × (p'.is_init ≡ true) × (m'.state ≡ initialized) × (spawned ≡ true))
        ⊎ ((is_neg res ≡ true) × (p'.is_init ≡ false) × (m'.state ≡ created) × (spawned ≡ false))
  unfolding init
  init_outcome_of_process p m w fresh st =
      let (_, m₁, w₁) = Events.init os epoll_size m w in
      let (_, _, w₂) = Events.start os m₁ w₁ in
      ground
        (arith, init_outcome os epoll_size m w st, start_outcome m₁ w₁, deinit_initialized m₁ w₂)

  stop_unstarted :
      (m : IoModule) (w : W) → m.state ≡ initialized → Events.stop os m w ≡ (failure, m, w)
  unfolding Events.stop
  stop_unstarted m w st = ground arith

  -- A `deinit` that follows a successful `init` before the thread of the event module has run fails
  -- and changes nothing.
  pub deinit-init_too_early :
      (p : Process) (m : IoModule) (w : W)
      → p.is_init ≡ false
      → m.state ≡ created
      → is_neg (init os p m w).0 ≡ false
      → let (_, p', m', w', _) = init os p m w in deinit os p' m' w' ≡ (failure, p', m', w')
  unfolding deinit
  deinit-init_too_early p m w fresh st ok =
      let (_, p', m', w', _) = init os p m w in
      ground (arith, init_outcome_of_process p m w fresh st, stop_unstarted m' w')

  -- Once the thread runs, `deinit` of an initialized process succeeds if the stop flag can be
  -- written: the event module is back in the state `created`, and the process can be initialized
  -- again.
  pub deinit_running :
      (p : Process) (m : IoModule) (w : W)
      → p.is_init ≡ true
      → m.state ≡ started
      → is_neg m.wakeup_write_fd ≡ false
      → is_neg (os.write_byte m.wakeup_write_fd io_module_stop_flag w).0 ≡ false
      → let (res, p', m', w') = deinit os p m w in
        (res ≡ success) × (p'.is_init ≡ false) × (m'.state ≡ created)
  unfolding deinit Events.stop
  deinit_running p m w up st open_fd ok =
      let m₁ = record m { state = initialized } in
      ground (
        arith,
        deinit_initialized m₁ (os.write_byte m.wakeup_write_fd io_module_stop_flag w).1 refl,
      )
