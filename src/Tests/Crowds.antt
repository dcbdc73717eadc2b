-- ===== src/Tests/Crowds.antt =====
-- Two callers, which wait for the replies to their messages 7 and 8; and a caller that is woken
-- without a reply.
use deric_rpc.Prelude.{
  ℤ, pos, success, Bytes, [], ◌∷◌, ◌≡◌, ◌⊎◌, refl, false, none, some, lookup, contains, insert,
  int_equality, int_beq,
}
use deric_rpc.Client.Entry.{store_reply, add_result_waiting_item}
use deric_rpc.Client.Entry.Waiting.{
  sent, woken, finished, WaitState, IsReply, register, begin_wait, wake_spuriously, resume,
}
use deric_rpc.Client.Entry.Waiting.Crowd.{
  Crowd, view, moved, deliver_all, CrowdReach, start, step, registers, waits, resumes, delivers,
  crowd_result-IsReply, crowd_gets_reply,
}
use deric_rpc.Client.Entry.Sync.{end_sync}
use deric_rpc.Rpc.Spurious.{spurious_wakeup_reads_default}
use deric_rpc.Tests.Packer.{packer, sized_strings, unpack_sized-end}
use deric_rpc.Tests.Waits.{reply, reply-IsReply}

abbrev IsThis : Bytes → Type 0
IsThis msg = msg ≡ reply

abbrev calling : Crowd
calling = record { phases = λ id. sent; items = [] }

abbrev registering : Crowd
registering = moved (pos 7) (register (pos 7) (view (pos 7) calling)) calling

abbrev both_registered : Crowd
both_registered = moved (pos 8) (register (pos 8) (view (pos 8) registering)) registering

abbrev one_waits : Crowd
one_waits = moved (pos 7) (begin_wait (pos 7) (view (pos 7) both_registered)) both_registered

abbrev both_wait : Crowd
both_wait = moved (pos 8) (begin_wait (pos 8) (view (pos 8) one_waits)) one_waits

both_wait_reached : CrowdReach packer IsThis (Unit {0}) calling both_wait
unfolding register begin_wait add_result_waiting_item contains insert
both_wait_reached =
    step
      (step (step (step start (registers (pos 7) refl)) (registers (pos 8) refl))
        (waits (pos 7) refl))
      (waits (pos 8) refl)

abbrev delivered : Crowd
delivered = deliver_all packer reply both_wait

abbrev answered : Crowd
answered = moved (pos 7) (resume (pos 7) (view (pos 7) delivered)) delivered

crowd_gets_reply_example :
    (delivered.phases (pos 7) ≡ woken)
    × (answered.phases (pos 7) ≡ finished reply)
    × ((other : ℤ)
        → int_beq (pos 7) other ≡ false
        → (answered.phases other ≡ both_wait.phases other)
          × (lookup other answered.items ≡ lookup other both_wait.items))
unfolding begin_wait register
crowd_gets_reply_example =
    crowd_gets_reply packer IsThis (Unit {0}) calling both_wait (pos 7) reply (λ other. refl)
      both_wait_reached refl reply-IsReply

crowd_result-IsReply_example :
    (Unit {0} × (reply ≡ [])) ⊎ (IsReply packer (pos 7) reply × (reply ≡ reply))
unfolding begin_wait register
crowd_result-IsReply_example =
    let (awake, done, _) =
      crowd_gets_reply packer IsThis (Unit {0}) calling both_wait (pos 7) reply (λ other. refl)
        both_wait_reached refl reply-IsReply in
    crowd_result-IsReply packer IsThis (Unit {0}) calling answered (pos 7) reply (λ other. refl)
      (step (step both_wait_reached (delivers reply refl)) (resumes (pos 7) awake)) done

abbrev alone : WaitState
alone = record { phase = sent; items = [] }

spurious_wakeup_reads_default_example :
    let t = resume (pos 7) (wake_spuriously (begin_wait (pos 7) (register (pos 7) alone))) in
    (end_sync packer sized_strings (b'v' ∷ []) t.phase ≡ some (success, []))
    × (store_reply packer reply t.items ≡ (t.items, none))
unfolding contains
spurious_wakeup_reads_default_example =
    spurious_wakeup_reads_default packer sized_strings (pos 7) alone (b'v' ∷ []) reply
      unpack_sized-end refl reply-IsReply
