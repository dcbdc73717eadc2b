-- ===== src/Tests/Exchanges.antt =====
-- Two requests of one client in turn.
use deric_rpc.Prelude.{pos, success, Bytes, [], ◌∷◌, ◌++◌, ◌≡◌, refl, false, some, arith, lookup}
use deric_rpc.Io.Connection.{Connection}
use deric_rpc.Io.Connection.Framing.{frame}
use deric_rpc.Io.Events.Loop.{wait_loop}
use deric_rpc.Wire.Uint32.{set_uint32_to_chars}
use deric_rpc.Serial.{serial_message_meta, serial_message_data}
use deric_rpc.Server.Client.{ClientEntry}
use deric_rpc.Server.Registry
use deric_rpc.Server.Host.{Host, kernel, host_members}
use deric_rpc.Client.Entry.{request}
use deric_rpc.Rpc.Call.{handle_data-found}
use deric_rpc.Rpc.Round.{IsServing}
use deric_rpc.Rpc.Exchange.{Exchange, done, next, wait_loop-Exchange}
use deric_rpc.Tests.Calls.{helper}
use deric_rpc.Tests.Frames.{connection}
use deric_rpc.Tests.Hosts.{
  name, word, shout, asked, answered, host, service, one_client, entry, input, input-IsReadable,
  pending, serving,
}
use deric_rpc.Tests.Machine.{Machine, machine, stream, machine-Delivers, online}
use deric_rpc.Tests.Packer.{packer, sized_strings, sized_ints-RoundTrips, sized_strings-RoundTrips}

abbrev pub both : Bytes
both = frame asked ++ (frame asked ++ [])

pub asked-answered :
    (w : Machine) → Registry.handle_data packer service (some asked) [] w ≡ (success, answered, w)
unfolding lookup
asked-answered w =
    handle_data-found packer sized_strings sized_strings service helper shout name (pos 7) word w
      sized_ints-RoundTrips sized_strings-RoundTrips sized_strings-RoundTrips refl refl refl refl

exchange :
    Exchange packer machine stream 5 service
      (asked ∷ asked ∷ [])
      (host both).world
      (record online { sent = frame answered ++ frame answered })
unfolding request serial_message_meta serial_message_data frame set_uint32_to_chars
exchange =
    next answered (frame asked ++ []) success (λ e. cc) (omega arith) refl (asked-answered _)
      (λ e. cc) (omega arith)
      (next answered [] success (λ e. cc) (omega arith) refl (asked-answered _) (λ e. cc)
        (omega arith) done)

wait_loop-Exchange_example :
    (σ' : Host Machine) × (e' : ClientEntry) × (c' : Connection) × (wait_loop
        (kernel machine)
        (host_members packer machine)
        ((input ∷ []) ∷ (input ∷ []) ∷ [])
        pending
        one_client
        (host both)
      ≡ some (false, one_client, σ'))
    × (σ'.world ≡ record online { sent = frame answered ++ frame answered })
    × IsServing one_client σ' 5 1 e' c'
wait_loop-Exchange_example =
    wait_loop-Exchange packer machine stream 5 service (machine-Delivers 5) 1 input input-IsReadable
      (asked ∷ asked ∷ []) entry connection pending one_client (host both)
      (record online { sent = frame answered ++ frame answered }) exchange
      (record { state = refl; serialer = refl; functions = refl }) (serving both) refl refl
