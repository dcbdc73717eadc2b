-- ===== src/Tests/Isolations.antt =====
-- Two clients of one service, of which one sends a request.
use deric_rpc.Prelude.{pos, success, [], ◌∷◌, ◌++◌, ◌≡◌, refl, false, some, arith, insert, lookup}
use deric_rpc.Io.Connection.Framing.{frame}
use deric_rpc.Io.Events.Loop.{handle_event, handle_events, close_members, wait_loop}
use deric_rpc.Wire.Uint32.{set_uint32_to_chars}
use deric_rpc.Serial.{serial_message_meta, serial_message_data}
use deric_rpc.Server.Client.{ClientEntry}
use deric_rpc.Server.Service.{Service}
use deric_rpc.Server.Registry
use deric_rpc.Server.Linked.{IsLinked, insert-IsLinked}
use deric_rpc.Server.Linked.Rounds.{wait_loop-IsLinked}
use deric_rpc.Server.Host.{Host, kernel, host_members}
use deric_rpc.Client.Entry.{request}
use deric_rpc.Rpc.Call.{handle_data-found}
use deric_rpc.Rpc.Round.{IsServing, replied_on, handle_event-answer}
use deric_rpc.Rpc.Isolation.{UntouchedBut}
use deric_rpc.Rpc.Isolation.Events.{handle_event-UntouchedBut}
use deric_rpc.Tests.Calls.{helper}
use deric_rpc.Tests.Frames.{connection}
use deric_rpc.Tests.Hosts.{
  name, word, shout, asked, answered, host, service, one_client, entry, input, input-IsReadable,
  pending,
}
use deric_rpc.Tests.Machine.{Machine, machine, stream, machine-Delivers, online}
use deric_rpc.Tests.Packer.{packer, sized_strings, sized_ints-RoundTrips, sized_strings-RoundTrips}

abbrev second : ClientEntry
second = record {
  client_id = 2;
  io_connection = some (record {
    object = 3;
    connection = record connection { socket_fd = pos 8; io_client = some 2 };
  });
}

abbrev two_clients : Service Machine
two_clients = record service { clients = (1, entry) ∷ (2, second) ∷ [] }

abbrev before : Host Machine
before = record (host (frame asked ++ [])) { service = two_clients }

abbrev after : Host Machine
after = replied_on answered 1 entry connection (record online { sent = frame answered }) before

before-IsServing : IsServing one_client before 5 1 entry connection
unfolding lookup
before-IsServing = record {
  unlocked = refl;
  apart = refl;
  registered = refl;
  listed = refl;
  numbered = refl;
  connected = refl;
  up = refl;
  opened = refl;
  client = refl;
}

asked-answered_by_two :
    (w : Machine)
    → Registry.handle_data packer two_clients (some asked) [] w ≡ (success, answered, w)
unfolding lookup
asked-answered_by_two w =
    handle_data-found packer sized_strings sized_strings two_clients helper shout name (pos 7) word
      w sized_ints-RoundTrips sized_strings-RoundTrips sized_strings-RoundTrips refl refl refl refl

answering :
    handle_event (kernel machine) (host_members packer machine) input pending one_client before
    ≡ some (pending, one_client, after)
unfolding request serial_message_meta serial_message_data frame set_uint32_to_chars
answering =
    (handle_event-answer packer machine stream 5 (machine-Delivers 5) asked answered [] success 1
      entry connection input pending one_client before _ before-IsServing input-IsReadable (λ e. cc)
      (omega arith) refl (asked-answered_by_two _) (λ e. cc) (omega arith)).0

handle_event-UntouchedBut_example : UntouchedBut 1 before after
unfolding lookup
handle_event-UntouchedBut_example =
    handle_event-UntouchedBut packer machine 1 entry input pending pending one_client one_client
      before after refl
      (record { connection = connection; numbered = refl; connected = refl; client = refl }) refl
      refl answering

two_clients-IsLinked : IsLinked two_clients
unfolding insert lookup
two_clients-IsLinked =
    let none_yet : Service Machine = record service { clients = [] } in
    let one : Service Machine = record service { clients = (1, entry) ∷ [] } in
    insert-IsLinked one
      (insert-IsLinked none_yet (λ id e found. absurd (ground (arith, found))) 1 entry
        (record { connection = connection; numbered = refl; connected = refl; client = refl }))
      2 second
      (record {
        connection = record connection { socket_fd = pos 8; io_client = some 2 };
        numbered = refl;
        connected = refl;
        client = refl;
      })

one_round :
    wait_loop
      (kernel machine)
      (host_members packer machine)
      ((input ∷ []) ∷ [])
      pending
      one_client
      before
    ≡ some (false, one_client, after)
unfolding wait_loop handle_events close_members
one_round = rw answering refl

wait_loop-IsLinked_example : IsLinked after.service
wait_loop-IsLinked_example =
    wait_loop-IsLinked packer machine ((input ∷ []) ∷ []) pending one_client one_client before after
      false two_clients-IsLinked one_round
