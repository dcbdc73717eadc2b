-- ===== src/Tests/Calls.antt =====
-- Calls of a service with one counter as its world.
use deric_rpc.Prelude.{ℕ, ◌+◌, Bytes, [], ◌∷◌, true, none, bytes_equality}
use deric_rpc.Common.{started}
use deric_rpc.Function.{FunctionHelper}
use deric_rpc.Server.Service.{Service}

abbrev pub service : Service ℕ
service = record {
  service_name = b't' ∷ [];
  state = started;
  has_serialer = true;
  io_server = none;
  clients = [];
  functions = [];
}

abbrev pub helper : FunctionHelper
helper = record { has_serialer = true }

-- A function of a string that counts its calls.
abbrev pub greet : Bytes → ℕ → Bytes × ℕ
greet name calls = (b'!' ∷ name, calls + 1)
