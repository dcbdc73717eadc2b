-- ===== src/Tests/Syncs.antt =====
-- A call that waits for its result.
use deric_rpc.Prelude.{
  pos, success, Bytes, [], ◌∷◌, ◌≡◌, refl, some, arith, contains, insert, lookup, int_equality,
}
use deric_rpc.Io.Connection.Framing.{frame}
use deric_rpc.Serial.{get_message_type, get_message_id, serial_message_meta, serial_message_data}
use deric_rpc.Client.Entry.{
  ClientEntry, request, get_message_id_of, add_result_waiting_item, store_reply,
}
use deric_rpc.Client.Entry.Waiting.{
  sent, WaitState, register, begin_wait, deliver, resume, registers, waits, resumes, delivers,
}
use deric_rpc.Client.Entry.Waiting.Replies.{Reach, step, waiting_gets_reply}
use deric_rpc.Client.Entry.Sync.{begin_sync, end_sync}
use deric_rpc.Rpc.Messages.{reply_with, reply_of_result}
use deric_rpc.Rpc.Sent.{impl_with_sent, invoke_sends_request}
use deric_rpc.Rpc.Sync.{Answers, EndsWith, sync_outcome, sync_returns}
use deric_rpc.Tests.Clients.{caller, impl, connected}
use deric_rpc.Tests.Hosts.{name, word, packs}
use deric_rpc.Tests.Machine.{machine, idle}
use deric_rpc.Tests.Packer.{packer, sized_strings, unpack_front}

abbrev result : Bytes
result = b'!' ∷ word

abbrev reply : Bytes
reply = reply_with packer sized_strings name (pos 4) result

abbrev asking : WaitState
asking = record { phase = sent; items = [] }

sync_returns_example :
    (s : WaitState) × (c' : ClientEntry) × (begin_sync packer machine sized_strings name word 3
        caller idle
      ≡ some (
        pos 4,
        s,
        c',
        record idle { sent = frame (request packer sized_strings name (pos 4) word) },
        4,
      ))
    × (let t =
          resume (pos 4) (deliver packer (pos 4) reply (begin_wait (pos 4) (register (pos 4) s))) in
        (end_sync packer sized_strings [] t.phase ≡ some (success, result))
        × (lookup (pos 8) t.items ≡ lookup (pos 8) []))
unfolding contains request serial_message_meta serial_message_data
sync_returns_example =
    sync_returns packer sized_strings sized_strings name result machine word 3 5 connected impl
      caller idle [] (pos 8) packs (omega arith) refl refl refl refl refl (omega arith) refl refl

abbrev finished : WaitState
finished =
    resume (pos 4) (deliver packer (pos 4) reply (begin_wait (pos 4) (register (pos 4) asking)))

reached :
    Reach packer
      (pos 4)
      (Answers packer sized_strings sized_strings name result (pos 4))
      (Unit {0})
      asking
      finished
unfolding register begin_wait deliver store_reply add_result_waiting_item contains insert
    get_message_type get_message_id serial_message_meta serial_message_data unpack_front
reached =
    step (step (step (step Reach.start (registers refl)) (waits refl)) (delivers reply (λ h. refl)))
      (resumes refl)

abbrev question : Bytes
question = request packer sized_strings name (pos 4) word

abbrev behind : ClientEntry
behind = record caller { client_impl = some (impl_with_sent question connected impl) }

begun :
    begin_sync packer machine sized_strings name word 3 caller idle
    ≡ some (pos 4, asking, behind, record idle { sent = frame question }, 4)
unfolding begin_sync get_message_id_of request serial_message_meta serial_message_data
begun =
    rw
      (invoke_sends_request machine packer sized_strings name word 3 5 connected impl caller idle
        packs.ints (omega arith) refl refl refl refl refl (omega arith))
      refl

ended : end_sync packer sized_strings [] finished.phase ≡ some (success, result)
unfolding end_sync contains
ended =
    let (is_reply, of_call, read) =
      reply_of_result packer sized_strings name (pos 4) result packs.ints packs.strings
        packs.results in
    rw (waiting_gets_reply packer (pos 4) reply asking (pos 8) refl refl (is_reply, of_call)).0
      (rw read refl)

sync_outcome_example :
    EndsWith packer sized_strings sized_strings name result (Unit {0}) [] success result
sync_outcome_example =
    sync_outcome packer sized_strings sized_strings name result machine (Unit {0}) word 3 4 caller
      behind idle (record idle { sent = frame question }) (pos 4) asking finished [] result success
      packs (omega arith) begun reached ended
