-- ===== src/Client/Entry/Waiting/Replies.antt =====
-- Which replies reach the caller that waits for them:
-- deric_rpc/rpc/client/src/rpc_client_entry.cpp, `_waitForResult` and `serviceMessageCallback`.
use deric_rpc.Prelude.{
  ℤ, int_beq, int_beq_iff, true, false, Bytes, [], ◌≡◌, ◌≢◌, ◌⊎◌, subst, sym, inl, inr, Option,
  none, some, arith, Dict, lookup, insert, contains, int_equality, lookup-insert, lookup-erase,
  contains-lookup, Bool-cases,
}
use deric_rpc.Serial.{Msgpack, get_message_type, get_message_id}
use deric_rpc.Server.Registry.{message_type_replay}
use deric_rpc.Client.Entry.{add_result_waiting_item, remove_result_waiting_item, store_reply}
use deric_rpc.Client.Entry.Waiting.{
  Phase, sent, registered, waiting, woken, gave_up, finished, WaitState, register, begin_wait,
  resume, deliver, wake_spuriously, message_of, IsReply, Step, registers, waits, wakes, resumes,
  delivers, notify,
}

module _ (mp : Msgpack) (msg_id : ℤ) where
  -- A caller that is not woken yet, and has no result.
  abbrev IsAsleep : Phase → Type 0
  IsAsleep woken = ⊥
  IsAsleep (finished _) = ⊥
  IsAsleep _ = Unit {0}

  -- The steps of the two threads as long as no reply to the caller is delivered and nothing but
  -- `notify_one` wakes a caller.
  pub data QuietReach (s : WaitState) : WaitState → Type 0 where
    here : QuietReach s s
    registering :
        {t : WaitState} → QuietReach s t → t.phase ≡ sent → QuietReach s (register msg_id t)
    waiting_on :
        {t : WaitState} → QuietReach s t → t.phase ≡ registered → QuietReach s (begin_wait msg_id t)
    resuming : {t : WaitState} → QuietReach s t → t.phase ≡ woken → QuietReach s (resume msg_id t)
    delivering :
        {t : WaitState} (msg : Bytes)
        → QuietReach s t
        → ¬ IsReply mp msg_id msg
        → QuietReach s (deliver mp msg_id msg t)

  deliver-IsAsleep :
      (msg : Bytes) (s : WaitState)
      → ¬ IsReply mp msg_id msg
      → IsAsleep s.phase
      → IsAsleep (deliver mp msg_id msg s).phase
  unfolding deliver store_reply
  deliver-IsAsleep msg s other a = ground (
    arith,
    int_beq_iff (get_message_type mp msg) message_type_replay,
    int_beq_iff (get_message_id mp msg) msg_id,
    other,
  )

  deliver_early-IsAsleep :
      (msg : Bytes) (s : WaitState)
      → (s.phase ≡ sent) ⊎ (s.phase ≡ registered)
      → IsAsleep (deliver mp msg_id msg s).phase
  unfolding deliver store_reply
  deliver_early-IsAsleep msg s early = ground arith

  QuietReach-IsAsleep : {s t : WaitState} → QuietReach s t → IsAsleep s.phase → IsAsleep t.phase
  unfolding register begin_wait
  QuietReach-IsAsleep here a = a
  QuietReach-IsAsleep (registering {t} r e) a = ground arith
  QuietReach-IsAsleep (waiting_on r e) a = tt
  QuietReach-IsAsleep (resuming r e) a = ground (arith, QuietReach-IsAsleep r a)
  QuietReach-IsAsleep (delivering {t} msg r other) a =
      deliver-IsAsleep msg t other (QuietReach-IsAsleep r a)

  -- The reply is lost where it comes too early, before the caller has registered or before it waits:
  -- as long as no other reply to the caller comes, and no wakeup but those by `notify_one`, no steps
  -- of the two threads bring the caller to a result. A wakeup without `notify_one`, which the C++
  -- standard allows, would end the wait all the same.
  pub early_reply_is_lost :
      (msg : Bytes) (s t : WaitState)
      → (s.phase ≡ sent) ⊎ (s.phase ≡ registered)
      → IsReply mp msg_id msg
      → QuietReach (deliver mp msg_id msg s) t
      → (result : Bytes) → t.phase ≢ finished result
  early_reply_is_lost msg s t early reply r result e =
      ground (arith, QuietReach-IsAsleep r (deliver_early-IsAsleep msg s early))

  -- The reply that comes while the caller waits ends the wait: the caller returns it, its item is
  -- removed, and the items of other callers are as they were before it registered.
  pub waiting_gets_reply :
      (msg : Bytes) (s : WaitState) (other : ℤ)
      → s.phase ≡ sent
      → contains msg_id s.items ≡ false
      → IsReply mp msg_id msg
      → let t = resume msg_id (deliver mp msg_id msg (begin_wait msg_id (register msg_id s))) in
        (t.phase ≡ finished msg) × (lookup other t.items ≡ lookup other s.items)
  unfolding register begin_wait deliver resume store_reply add_result_waiting_item
      remove_result_waiting_item
  waiting_gets_reply msg s other ph fresh reply =
      let first = insert msg_id [] s.items in
      let second = insert msg_id msg first in
      let same = int_beq_iff msg_id msg_id in
      let absent = contains-lookup msg_id s.items in
      let present = contains-lookup msg_id first in
      let stored = contains-lookup msg_id second in
      let found = lookup-insert msg_id msg_id [] s.items in
      let got = lookup-insert msg_id msg_id msg first in
      let replay = int_beq_iff (get_message_type mp msg) message_type_replay in
      (
        ground (arith, same, absent, present, stored, found, got, replay),
        ground (
          arith,
          same,
          absent,
          present,
          stored,
          found,
          got,
          replay,
          int_beq_iff msg_id other,
          lookup-erase msg_id other second,
          lookup-insert msg_id other msg first,
          lookup-insert msg_id other [] s.items,
        ),
      )

  store_reply_cases :
      (msg : Bytes) (items : Dict ℤ Bytes)
      → let id = get_message_id mp msg in
        (store_reply mp msg items ≡ (items, none))
        ⊎ ((get_message_type mp msg ≡ message_type_replay)
            × (store_reply mp msg items ≡ (insert id msg items, some id)))
  unfolding store_reply
  store_reply_cases msg items =
      ground (arith, int_beq_iff (get_message_type mp msg) message_type_replay)

module _ (mp : Msgpack) (msg_id : ℤ) (Arrives : Bytes → Type 0) (Spurious : Type 0) where
  -- A delivered message that is the reply to the caller.
  abbrev pub Comes : Bytes → Type 0
  Comes msg = IsReply mp msg_id msg × Arrives msg

  -- What holds of the caller at each point, with its item.
  abbrev pub HoldsAt : Phase → Option Bytes → Type 0
  HoldsAt sent item = Unit {0}
  HoldsAt gave_up item = Unit {0}
  HoldsAt registered item = (message_of item ≡ []) ⊎ Comes (message_of item)
  HoldsAt waiting item = (message_of item ≡ []) ⊎ Comes (message_of item)
  HoldsAt woken item = (Spurious × (message_of item ≡ [])) ⊎ Comes (message_of item)
  HoldsAt (finished msg) item = (Spurious × (msg ≡ [])) ⊎ Comes msg

  abbrev pub Holds : Phase → Dict ℤ Bytes → Type 0
  Holds phase items = HoldsAt phase (lookup msg_id items)

  pub data Reach (s : WaitState) : WaitState → Type 0 where
    start : Reach s s
    step : {t u : WaitState} → Reach s t → Step mp msg_id Arrives Spurious t u → Reach s u

  register-Holds : (s : WaitState) → Holds (register msg_id s).phase (register msg_id s).items
  unfolding register add_result_waiting_item
  register-Holds s = elim (Bool-cases (contains msg_id s.items)) [
    | inl there ↦ rw there tt
    | inr free ↦
        rw free
          (inl (ground (arith, lookup-insert msg_id msg_id [] s.items, int_beq_iff msg_id msg_id)))
  ]

  begin_wait-item :
      (s : WaitState)
      → message_of (lookup msg_id (begin_wait msg_id s).items) ≡ message_of (lookup msg_id s.items)
  unfolding begin_wait
  begin_wait-item s = ground (
    arith,
    lookup-insert msg_id msg_id [] s.items,
    int_beq_iff msg_id msg_id,
    contains-lookup msg_id s.items,
  )

  silent-Holds :
      (phase : Phase) (item : Option Bytes)
      → HoldsAt phase item
      → HoldsAt (notify phase msg_id none) item
  silent-Holds sent item h = h
  silent-Holds registered item h = h
  silent-Holds waiting item h = h
  silent-Holds woken item h = h
  silent-Holds gave_up item h = h
  silent-Holds (finished b) item h = h

  own-Holds :
      (msg : Bytes) (id : ℤ) (phase : Phase) (item : Option Bytes)
      → int_beq id msg_id ≡ true
      → Comes msg
      → HoldsAt phase item
      → HoldsAt (notify phase msg_id (some id)) (some msg)
  own-Holds msg id sent item own came h = tt
  own-Holds msg id gave_up item own came h = tt
  own-Holds msg id registered item own came h = inr came
  own-Holds msg id waiting item own came h = rw own (inr came)
  own-Holds msg id woken item own came h = inr came
  own-Holds msg id (finished b) item own came h = h

  other-Holds :
      (id : ℤ) (phase : Phase) (item : Option Bytes)
      → int_beq id msg_id ≡ false
      → HoldsAt phase item
      → HoldsAt (notify phase msg_id (some id)) item
  other-Holds id sent item other h = tt
  other-Holds id gave_up item other h = tt
  other-Holds id registered item other h = h
  other-Holds id waiting item other h = rw other h
  other-Holds id woken item other h = h
  other-Holds id (finished b) item other h = h

  stored-Holds :
      (msg : Bytes) (phase : Phase) (items : Dict ℤ Bytes)
      → get_message_type mp msg ≡ message_type_replay
      → Arrives msg
      → Holds phase items
      → let id = get_message_id mp msg in
        Holds (notify phase msg_id (some id)) (insert id msg items)
  stored-Holds msg phase items t came h =
      let id = get_message_id mp msg in
      let put = lookup-insert id msg_id msg items in
      elim (Bool-cases (int_beq id msg_id)) [
        | inl own ↦
            let item : some msg ≡ lookup msg_id (insert id msg items) = ground (arith, put, own) in
            subst (HoldsAt (notify phase msg_id (some id))) item (
              own-Holds msg id phase (lookup msg_id items) own
                ((t, (int_beq_iff id msg_id).0 own), came) h)
        | inr other ↦
            let item : lookup msg_id items ≡ lookup msg_id (insert id msg items) =
              ground (arith, put, other) in
            subst (HoldsAt (notify phase msg_id (some id))) item
              (other-Holds id phase (lookup msg_id items) other h)
      ]

  woken-Holds : (item : Option Bytes) → Spurious → HoldsAt waiting item → HoldsAt woken item
  woken-Holds item sp (inl empty) = inl (sp, empty)
  woken-Holds item sp (inr came) = inr came

  pub Step-Holds :
      {s t : WaitState}
      → Step mp msg_id Arrives Spurious s t
      → Holds s.phase s.items
      → Holds t.phase t.items
  unfolding begin_wait deliver resume wake_spuriously
  Step-Holds {s} (registers e) h = register-Holds s
  Step-Holds {s} (waits e) h =
      subst (λ b. (b ≡ []) ⊎ Comes b) (sym (begin_wait-item s)) (subst (λ p. Holds p s.items) e h)
  Step-Holds {s} (wakes sp e) h =
      woken-Holds (lookup msg_id s.items) sp (subst (λ p. Holds p s.items) e h)
  Step-Holds {s} (resumes e) h = subst (λ p. Holds p s.items) e h
  Step-Holds {s} (delivers msg came) h = elim (store_reply_cases mp msg_id msg s.items) [
    | inl ignored ↦ rw ignored (silent-Holds s.phase (lookup msg_id s.items) h)
    | inr (t, stored) ↦ rw stored (stored-Holds msg s.phase s.items t came h)
  ]

  pub Reach-Holds : {s t : WaitState} → Reach s t → Holds s.phase s.items → Holds t.phase t.items
  Reach-Holds start h = h
  Reach-Holds (step r st) h = Step-Holds st (Reach-Holds r h)
