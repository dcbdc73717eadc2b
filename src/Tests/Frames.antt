-- ===== src/Tests/Frames.antt =====
-- Messages on the wire.
use deric_rpc.Prelude.{pos, Bytes, [], ◌∷◌, ◌≡◌, refl, some, arith}
use deric_rpc.Common.{started}
use deric_rpc.Wire.Uint32.{set_uint32_to_chars}
use deric_rpc.Io.Connection.{Connection, server_mode, send_data, on_read_available}
use deric_rpc.Io.Connection.Framing.{frame, send_data-frame, on_read_available-frame}
use deric_rpc.Tests.Machine.{Machine, machine, recorder, stream, machine-Delivers, idle}

abbrev pub connection : Connection
connection = record {
  state = started;
  send_buffer = [];
  receive_buffer = [];
  socket_fd = pos 5;
  io_mode = server_mode;
  io_client = some 1;
}

abbrev pub hello : Bytes
hello = b'h' ∷ b'i' ∷ []

abbrev arriving : Machine
arriving = record idle { incoming = 1 ∷ 0 ∷ 0 ∷ 0 ∷ 2 ∷ b'h' ∷ b'i' ∷ b'x' ∷ [] }

send_data-frame_example :
    send_data machine (some hello) (pos 2) connection idle
    ≡ some (
      (machine.send (pos 5) (frame hello) idle).0,
      record connection { send_buffer = frame hello },
      (machine.send (pos 5) (frame hello) idle).1,
    )
send_data-frame_example =
    send_data-frame machine hello 5 connection idle refl refl (λ e. cc) (omega arith)

on_read_available-frame_example :
    on_read_available machine recorder connection arriving
    ≡ some (pos 2, connection, record arriving { incoming = b'x' ∷ []; handled = hello ∷ [] })
unfolding frame set_uint32_to_chars
on_read_available-frame_example =
    (on_read_available-frame machine recorder hello (b'x' ∷ []) 5 1 stream connection arriving
      (machine-Delivers 5) refl refl refl refl (λ e. cc) (omega arith) refl).0
