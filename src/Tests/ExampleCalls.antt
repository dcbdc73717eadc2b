-- ===== src/Tests/ExampleCalls.antt =====
-- A call of the example client that the service answers.
use deric_rpc.Prelude.{
  pos, success, Bytes, [], ◌≡◌, ◌⊎◌, refl, some, arith, contains, insert, int_equality,
}
use deric_rpc.Io.Connection.Framing.{frame}
use deric_rpc.Serial.{
  get_message_type, get_message_id, get_message_data, serial_message_meta, serial_message_data,
}
use deric_rpc.Client.Entry.{
  ClientEntry, request, get_message_id_of, add_result_waiting_item, store_reply,
}
use deric_rpc.Client.Entry.Waiting.{
  sent, WaitState, register, begin_wait, deliver, resume, registers, waits, resumes, delivers,
}
use deric_rpc.Client.Entry.Waiting.Replies.{Reach, step, waiting_gets_reply}
use deric_rpc.Client.Entry.Sync.{begin_sync, end_sync}
use deric_rpc.Rpc.Messages.{reply_with, reply_of_result}
use deric_rpc.Rpc.Sent.{impl_with_sent, invoke_sends_request}
use deric_rpc.Rpc.Remote.{Packs}
use deric_rpc.Rpc.Sync.{Answers}
use deric_rpc.Example.Console.{decimal}
use deric_rpc.Example.Client.{Wait, failed_line, show_call}
use deric_rpc.Example.Client.Showing.{show_call_shows}
use deric_rpc.Tests.Clients.{caller, impl, connected}
use deric_rpc.Tests.Examples.{screen, sized_pairs, sized_pairs-RoundTrips}
use deric_rpc.Tests.Hosts.{name}
use deric_rpc.Tests.Machine.{Machine, machine, idle}
use deric_rpc.Tests.Packer.{
  packer, sized_ints, sized_strings, unpack_front, sized_ints-RoundTrips, sized_strings-RoundTrips,
}

packs : Packs packer sized_pairs sized_ints
packs = record {
  ints = sized_ints-RoundTrips;
  strings = sized_strings-RoundTrips;
  arguments = sized_pairs-RoundTrips;
  results = sized_ints-RoundTrips;
}

abbrev reply : Bytes
reply = reply_with packer sized_ints name (pos 4) (pos 3)

abbrev asking : WaitState
asking = record { phase = sent; items = [] }

abbrev answered : WaitState
answered =
    resume (pos 4) (deliver packer (pos 4) reply (begin_wait (pos 4) (register (pos 4) asking)))

reached :
    Reach packer
      (pos 4)
      (Answers packer sized_pairs sized_ints name (pos 3) (pos 4))
      (Unit {0})
      asking
      answered
unfolding register begin_wait deliver store_reply add_result_waiting_item contains insert
    get_message_type get_message_id serial_message_meta serial_message_data unpack_front
reached =
    step (step (step (step Reach.start (registers refl)) (waits refl)) (delivers reply (λ h. refl)))
      (resumes refl)

abbrev question : Bytes
question = request packer sized_pairs name (pos 4) (pos 1, pos 2)

abbrev behind : ClientEntry
behind = record caller { client_impl = some (impl_with_sent question connected impl) }

begun :
    begin_sync packer machine sized_pairs name (pos 1, pos 2) 3 caller idle
    ≡ some (pos 4, asking, behind, record idle { sent = frame question }, 4)
unfolding begin_sync get_message_id_of request serial_message_meta serial_message_data
begun =
    rw
      (invoke_sends_request machine packer sized_pairs name (pos 1, pos 2) 3 5 connected impl caller
        idle sized_ints-RoundTrips (omega arith) refl refl refl refl refl (omega arith))
      refl

ended : end_sync packer sized_ints (pos 9) answered.phase ≡ some (success, pos 3)
unfolding end_sync contains
ended =
    let (is_reply, of_call, read) =
      reply_of_result packer sized_ints name (pos 4) (pos 3) sized_ints-RoundTrips
        sized_strings-RoundTrips sized_ints-RoundTrips in
    rw (waiting_gets_reply packer (pos 4) reply asking (pos 8) refl refl (is_reply, of_call)).0
      (rw read refl)

-- The wait comes to the answered state, and the event thread changes nothing else.
abbrev answering : Wait Machine
answering id s c w = some (answered, c, w)

show_call_shows_example :
    (line : Bytes) × (show_call packer screen sized_pairs sized_strings machine answering name
        (pos 1, pos 2)
        (pos 9)
        3
        caller
        idle
      ≡ some (
        pos 3,
        record behind { waiting_items = answered.items },
        screen.print_line line (record idle { sent = frame question }),
        4,
      ))
    × (((line ≡ decimal (pos 3)) × (pos 3 ≡ pos 3))
        ⊎ (Unit {0}
            × (line ≡ decimal (get_message_data packer sized_ints []))
            × (pos 3 ≡ get_message_data packer sized_ints []))
        ⊎ ((line ≡ failed_line name) × (pos 3 ≡ pos 9)))
show_call_shows_example =
    show_call_shows packer screen sized_pairs sized_strings machine (Unit {0}) answering name
      (pos 1, pos 2) (pos 3) (pos 9) success (pos 3) (pos 4) 3 4 caller behind behind idle
      (record idle { sent = frame question }) (record idle { sent = frame question }) asking
      answered packs (omega arith) begun refl refl reached ended
