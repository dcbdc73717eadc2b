-- ===== src/Client/Entry/Waiting/Crowd.antt =====
-- Several callers that wait at once, each for the reply to its own message id, with one table of
-- waiting items: deric_rpc/rpc/client/src/rpc_client_entry.cpp, `_waitForResult` and
-- `serviceMessageCallback`.
use deric_rpc.Prelude.{
  ℤ, int_beq, int_beq_iff, true, false, Bytes, [], ◌≡◌, ◌≢◌, refl, subst, sym, ◌⊎◌, inl, inr, some,
  arith, Dict, lookup, insert, contains, int_equality, lookup-insert, lookup-erase, contains-lookup,
  Bool-cases, if◌then◌else◌,
}
use deric_rpc.Serial.{Msgpack, get_message_type, get_message_id}
use deric_rpc.Server.Registry.{message_type_replay}
use deric_rpc.Client.Entry.{add_result_waiting_item, remove_result_waiting_item, store_reply}
use deric_rpc.Client.Entry.Waiting.{
  Phase, sent, registered, waiting, woken, finished, WaitState, register, begin_wait, resume,
  deliver, wake_spuriously, IsReply, Step, notify,
}
use deric_rpc.Client.Entry.Waiting.Replies.{HoldsAt, Holds, Step-Holds}

-- Each id has at most one caller, since ids are counted up.
pub record Crowd : Type 0 where
  pub phases : ℤ → Phase
  pub items : Dict ℤ Bytes

-- What the caller of one id sees.
abbrev pub view : ℤ → Crowd → WaitState
view id s = record { phase = s.phases id; items = s.items }

-- The crowd behind a step of one caller.
abbrev pub moved : ℤ → WaitState → Crowd → Crowd
moved id t s = record {
  phases = λ other. if int_beq id other then t.phase else s.phases other;
  items = t.items;
}

module _ (mp : Msgpack) where
  -- `serviceMessageCallback`, for all callers.
  unfoldable pub deliver_all : Bytes → Crowd → Crowd
  deliver_all msg s =
      let (items, notified) = store_reply mp msg s.items in
      record { phases = λ id. notify (s.phases id) id notified; items = items }

  module _ (Arrives : Bytes → Type 0) (Spurious : Type 0) where
    pub data CrowdStep (s : Crowd) : Crowd → Type 0 where
      registers : (id : ℤ) → s.phases id ≡ sent → CrowdStep s (moved id (register id (view id s)) s)
      waits :
          (id : ℤ) → s.phases id ≡ registered → CrowdStep s (moved id (begin_wait id (view id s)) s)
      wakes :
          (id : ℤ)
          → Spurious
          → s.phases id ≡ waiting
          → CrowdStep s (moved id (wake_spuriously (view id s)) s)
      resumes : (id : ℤ) → s.phases id ≡ woken → CrowdStep s (moved id (resume id (view id s)) s)
      delivers : (msg : Bytes) → Arrives msg → CrowdStep s (deliver_all msg s)

    pub data CrowdReach (s : Crowd) : Crowd → Type 0 where
      start : CrowdReach s s
      step : {t u : Crowd} → CrowdReach s t → CrowdStep t u → CrowdReach s u

    -- What holds of the caller of one id; one that waits has its item.
    abbrev Stands : ℤ → Phase → Dict ℤ Bytes → Type 0
    Stands id phase items =
        Holds mp id Arrives Spurious phase items × (phase ≡ waiting → contains id items ≡ true)

    -- The items of other ids do not matter.
    kept-Stands :
        (id : ℤ) (phase : Phase) (items items' : Dict ℤ Bytes)
        → lookup id items' ≡ lookup id items
        → Stands id phase items
        → Stands id phase items'
    kept-Stands id phase items items' same (h, item) = (
      subst (HoldsAt mp id Arrives Spurious phase) (sym same) h,
      λ e. ground (arith, item e, same, contains-lookup id items, contains-lookup id items'),
    )

    -- A step of one caller touches no item but its own.
    register-others :
        (id other : ℤ) (s : WaitState)
        → int_beq id other ≡ false
        → lookup other (register id s).items ≡ lookup other s.items
    unfolding register add_result_waiting_item
    register-others id other s apart = ground (arith, apart, lookup-insert id other [] s.items)

    begin_wait-others :
        (id other : ℤ) (s : WaitState)
        → int_beq id other ≡ false
        → lookup other (begin_wait id s).items ≡ lookup other s.items
    unfolding begin_wait
    begin_wait-others id other s apart = ground (arith, apart, lookup-insert id other [] s.items)

    resume-others :
        (id other : ℤ) (s : WaitState)
        → int_beq id other ≡ false
        → lookup other (resume id s).items ≡ lookup other s.items
    unfolding resume remove_result_waiting_item
    resume-others id other s apart = ground (arith, apart, lookup-erase id other s.items)

    moved-Stands :
        (id other : ℤ) (s : Crowd) (t : WaitState)
        → Stands id t.phase t.items
        → (int_beq id other ≡ false → lookup other t.items ≡ lookup other s.items)
        → Stands other (s.phases other) s.items
        → Stands other ((moved id t s).phases other) t.items
    moved-Stands id other s t own apart h = elim (Bool-cases (int_beq id other)) [
      | inl same ↦
          rw same (subst (λ n. Stands n t.phase t.items) ((int_beq_iff id other).0 same) own)
      | inr differs ↦
          rw differs (kept-Stands other (s.phases other) s.items t.items (apart differs) h)
    ]

    waits-item : (id : ℤ) (s : WaitState) → contains id (begin_wait id s).items ≡ true
    unfolding begin_wait
    waits-item id s = ground (
      arith,
      contains-lookup id (insert id [] s.items),
      lookup-insert id id [] s.items,
      int_beq_iff id id,
    )

    register-waiting : (id : ℤ) (s : WaitState) → (register id s).phase ≢ waiting
    unfolding register
    register-waiting id s w = ground (arith, w)

    resume-waiting : (id : ℤ) (s : WaitState) → (resume id s).phase ≢ waiting
    unfolding resume
    resume-waiting id s w = ground (arith, w)

    wake_spuriously-waiting : (s : WaitState) → (wake_spuriously s).phase ≢ waiting
    unfolding wake_spuriously
    wake_spuriously-waiting s w = ground (arith, w)

    wake_spuriously-items :
        (other : ℤ) (s : WaitState) → lookup other (wake_spuriously s).items ≡ lookup other s.items
    unfolding wake_spuriously
    wake_spuriously-items other s = refl

    deliver_all-Stands :
        (msg : Bytes) (s : Crowd) (id : ℤ)
        → Arrives msg
        → Stands id (s.phases id) s.items
        → Stands id ((deliver_all msg s).phases id) (deliver_all msg s).items
    unfolding deliver_all deliver store_reply
    deliver_all-Stands msg s id came (h, item) = (
      Step-Holds mp id Arrives Spurious {s = view id s} (Step.delivers msg came) h,
      λ e. ground (
        arith,
        e,
        item,
        contains-lookup id s.items,
        contains-lookup id (insert (get_message_id mp msg) msg s.items),
        lookup-insert (get_message_id mp msg) id msg s.items,
      ),
    )

    CrowdStep-Stands :
        {s t : Crowd}
        → CrowdStep s t
        → ((id : ℤ) → Stands id (s.phases id) s.items)
        → (id : ℤ) → Stands id (t.phases id) t.items
    CrowdStep-Stands {s} (registers id e) h other =
        let v = view id s in
        moved-Stands id other s (register id v)
          (
            Step-Holds mp id Arrives Spurious (Step.registers e) (h id).0,
            λ w. absurd (register-waiting id v w),
          )
          (register-others id other v) (h other)
    CrowdStep-Stands {s} (waits id e) h other =
        let v = view id s in
        moved-Stands id other s (begin_wait id v)
          (Step-Holds mp id Arrives Spurious (Step.waits e) (h id).0, λ w. waits-item id v)
          (begin_wait-others id other v) (h other)
    CrowdStep-Stands {s} (wakes id sp e) h other =
        let v = view id s in
        moved-Stands id other s (wake_spuriously v)
          (
            Step-Holds mp id Arrives Spurious (Step.wakes sp e) (h id).0,
            λ w. absurd (wake_spuriously-waiting v w),
          )
          (λ apart. wake_spuriously-items other v) (h other)
    CrowdStep-Stands {s} (resumes id e) h other =
        let v = view id s in
        moved-Stands id other s (resume id v)
          (
            Step-Holds mp id Arrives Spurious (Step.resumes e) (h id).0,
            λ w. absurd (resume-waiting id v w),
          )
          (resume-others id other v) (h other)
    CrowdStep-Stands {s} (delivers msg came) h other = deliver_all-Stands msg s other came (h other)

    CrowdReach-Stands :
        {s t : Crowd}
        → CrowdReach s t
        → ((id : ℤ) → Stands id (s.phases id) s.items)
        → (id : ℤ) → Stands id (t.phases id) t.items
    CrowdReach-Stands start h id = h id
    CrowdReach-Stands (step r st) h id = CrowdStep-Stands st (CrowdReach-Stands r h) id

    sent-Stands : (id : ℤ) (s : Crowd) → s.phases id ≡ sent → Stands id (s.phases id) s.items
    sent-Stands id s e = (rw e tt, λ w. absurd (ground (arith, e, w)))

    -- Any number of callers, which have sent their requests, any messages that are delivered
    -- meanwhile, and any wakeups without `notify_one`, in whichever order: a result that some caller
    -- returns is a delivered message, and the reply to this caller's own message id, never to
    -- another's; or it is the empty string, where wakeups without `notify_one` occur.
    pub crowd_result-IsReply :
        (s t : Crowd) (id : ℤ) (result : Bytes)
        → ((other : ℤ) → s.phases other ≡ sent)
        → CrowdReach s t
        → t.phases id ≡ finished result
        → (Spurious × (result ≡ [])) ⊎ (IsReply mp id result × Arrives result)
    crowd_result-IsReply s t id result all_sent r e =
        let (h, _) = CrowdReach-Stands r (λ other. sent-Stands other s (all_sent other)) id in
        subst (λ p. Holds mp id Arrives Spurious p t.items) e h

    -- In whichever state callers and messages have brought each other: the reply that is delivered to
    -- a caller that waits wakes it, and no other caller; when it goes on, it returns that reply, and
    -- the other callers stand where they did, with their items. All callers had sent their
    -- requests at the start.
    pub crowd_gets_reply :
        (s t : Crowd) (id : ℤ) (msg : Bytes)
        → ((other : ℤ) → s.phases other ≡ sent)
        → CrowdReach s t
        → t.phases id ≡ waiting
        → IsReply mp id msg
        → let u = deliver_all msg t in
          let v = moved id (resume id (view id u)) u in
          (u.phases id ≡ woken)
          × (v.phases id ≡ finished msg)
          × ((other : ℤ)
              → int_beq id other ≡ false
              → (v.phases other ≡ t.phases other) × (lookup other v.items ≡ lookup other t.items))
    unfolding deliver_all store_reply resume remove_result_waiting_item
    crowd_gets_reply s t id msg all_sent r asleep (replay, own) =
        let (_, item) = CrowdReach-Stands r (λ other. sent-Stands other s (all_sent other)) id in
        let here = int_beq_iff id id in
        let there = item asleep in
        let is_replay = int_beq_iff (get_message_type mp msg) message_type_replay in
        let stored : store_reply mp msg t.items ≡ (insert id msg t.items, some id) =
          ground (arith, replay, own, there, is_replay) in
        (
          ground (arith, replay, own, there, asleep, here, is_replay),
          ground (arith, replay, own, there, here, is_replay, lookup-insert id id msg t.items),
          λ other apart. (
            ground (arith, stored, apart),
            ground (
              arith,
              stored,
              apart,
              lookup-erase id other (insert id msg t.items),
              lookup-insert id other msg t.items,
            ),
          ),
        )
