-- ===== src/Tests/Connections.antt =====
-- Connections that are started and stopped, and input of other shapes.
use deric_rpc.Prelude.{failure, success, [], ◌∷◌, ◌≡◌, refl, some}
use deric_rpc.Common.{created}
use deric_rpc.Wire.Uint32.{set_uint32_to_chars}
use deric_rpc.Wire.Header.{TcpHeader}
use deric_rpc.Io.Connection.{Connection, on_read_available}
use deric_rpc.Io.Connection.Framing.{frame}
use deric_rpc.Io.Connection.Safety.{on_read_available-empty_frame}
use deric_rpc.Tests.Machine.{Machine, machine, recorder, stream, machine-Delivers, idle}
use deric_rpc.Tests.Frames.{connection}

abbrev header : TcpHeader
header = record { magic = 9; message_len = 300 }

abbrev empty_then_one : Machine
empty_then_one = record idle { incoming = 1 ∷ 0 ∷ 0 ∷ 0 ∷ 0 ∷ b'x' ∷ [] }

on_read_available-empty_frame_example :
    on_read_available machine recorder connection empty_then_one
    ≡ some (success, connection, record idle { incoming = b'x' ∷ [] })
unfolding frame set_uint32_to_chars
on_read_available-empty_frame_example =
    on_read_available-empty_frame machine recorder (b'x' ∷ []) 5 1 stream connection empty_then_one
      (machine-Delivers 5) refl refl refl refl refl

abbrev fresh : Connection
fresh = record connection { state = created; socket_fd = failure }
