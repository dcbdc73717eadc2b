-- ===== src/Common.antt =====
-- deric_rpc/common/component_public.h and the enumerations of deric_rpc/io/include/io_interface.h.
use deric_rpc.Prelude.{Bool, true, false}

pub data ComponentState : Type 0 where
  created initialized started : ComponentState

abbrev pub is_created : ComponentState → Bool
is_created created = true
is_created _ = false

abbrev pub is_initialized : ComponentState → Bool
is_initialized initialized = true
is_initialized _ = false

abbrev pub is_started : ComponentState → Bool
is_started started = true
is_started _ = false

pub data IoMemberError : Type 0 where
  epoll_failed : IoMemberError

pub data IoMemberErrorAction : Type 0 where
  keep delete : IoMemberErrorAction

pub data IoConnectionEvent : Type 0 where
  close_event : IoConnectionEvent

-- How a call ends: with a value, by an exception, or not at all, since it waits for a mutex that no
-- thread unlocks.
pub data Call (A : Type 0) : Type 0 where
  returns : A → Call A
  throws : Call A
  hangs : Call A
