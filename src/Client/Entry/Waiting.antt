-- ===== src/Client/Entry/Waiting.antt =====
-- A caller that waits for its reply while the event thread delivers messages:
-- deric_rpc/rpc/client/src/rpc_client_entry.cpp, `_waitForResult` and `serviceMessageCallback`. A
-- step is what one thread does between two points where it holds no lock.
pub mod Replies
pub mod Crowd
use deric_rpc.Prelude.{
  ℕ, ℤ, pos, is_neg, int_beq, int_beq_iff, failure, success, Bool, true, false, Bytes, List, [],
  ◌∷◌, ◌≡◌, ◌≢◌, ◌⊎◌, inl, inr, refl, Option, none, some, arith, Dict, lookup, insert, erase,
  contains, int_equality, lookup-insert, lookup-erase, contains-lookup, if◌then◌else◌, Bool-cases,
}
use deric_rpc.Serial.{Msgpack, get_message_type, get_message_id}
use deric_rpc.Server.Registry.{message_type_replay}
use deric_rpc.Client.Entry.{add_result_waiting_item, remove_result_waiting_item, store_reply}

-- Where the caller stands in `_waitForResult`: before `_addResultWaitingItem`, behind it, in
-- `item.cv.wait`, woken from there, or at an end.
pub data Phase : Type 0 where
  sent registered waiting woken : Phase
  gave_up : Phase
  finished : Bytes → Phase

pub record WaitState : Type 0 where
  pub phase : Phase
  pub items : Dict ℤ Bytes

-- `auto& item = m_waitingItems[msgId]`, which makes a missing item.
abbrev ensure : ℤ → Dict ℤ Bytes → Dict ℤ Bytes
ensure msg_id items = if contains msg_id items then items else insert msg_id [] items

abbrev pub message_of : Option Bytes → Bytes
message_of none = []
message_of (some msg) = msg

-- `_addResultWaitingItem` and its failure.
unfoldable pub register : ℤ → WaitState → WaitState
register msg_id s =
    let (res, items) = add_result_waiting_item msg_id s.items in
    record s { phase = if is_neg res then gave_up else registered; items = items }

-- From the lock up to `wait`, which gives the lock up.
unfoldable pub begin_wait : ℤ → WaitState → WaitState
begin_wait msg_id s = record s { phase = waiting; items = ensure msg_id s.items }

-- A wakeup of `item.cv.wait(ul)` without a call of `notify_one`, which the C++ standard allows.
unfoldable pub wake_spuriously : WaitState → WaitState
wake_spuriously s = record s { phase = woken }

-- Behind `wait`: the message is moved out and the item removed.
unfoldable pub resume : ℤ → WaitState → WaitState
resume msg_id s = record s {
  phase = finished (message_of (lookup msg_id s.items));
  items = (remove_result_waiting_item msg_id s.items).1;
}

-- `notify_one` wakes a caller that waits, and is lost on any other.
abbrev pub notify : Phase → ℤ → Option ℤ → Phase
notify waiting msg_id (some id) = if int_beq id msg_id then woken else waiting
notify waiting msg_id none = waiting
notify phase msg_id notified = phase

module _ (mp : Msgpack) (msg_id : ℤ) where
  unfoldable pub deliver : Bytes → WaitState → WaitState
  deliver msg s =
      let (items, notified) = store_reply mp msg s.items in
      record s { phase = notify s.phase msg_id notified; items = items }

  -- A message is a reply to the caller.
  abbrev pub IsReply : Bytes → Type 0
  IsReply msg = (get_message_type mp msg ≡ message_type_replay) × (get_message_id mp msg ≡ msg_id)

  -- The steps of the two threads. `Arrives` says which messages come, and `Spurious` is empty where
  -- no wakeup comes but those by `notify_one`.
  pub data Step (Arrives : Bytes → Type 0) (Spurious : Type 0) (s : WaitState)
      : WaitState → Type 0 where
    registers : s.phase ≡ sent → Step Arrives Spurious s (register msg_id s)
    waits : s.phase ≡ registered → Step Arrives Spurious s (begin_wait msg_id s)
    wakes : Spurious → s.phase ≡ waiting → Step Arrives Spurious s (wake_spuriously s)
    resumes : s.phase ≡ woken → Step Arrives Spurious s (resume msg_id s)
    delivers : (msg : Bytes) → Arrives msg → Step Arrives Spurious s (deliver msg s)
