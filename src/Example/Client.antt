-- ===== src/Example/Client.antt =====
-- The program of example/client/client.cpp. What the event thread does while `main` waits for a reply
-- is a parameter.
pub mod Failing
pub mod Showing
use deric_rpc.Prelude.{
  ℕ, Bytes, [], ◌∷◌, ◌++◌, Option, none, some, ◌>>=◌, ℤ, pos, is_neg, Dict, lookup, if◌then◌else◌,
  bytes_equality,
}
use deric_rpc.Common.{Call, returns, throws, hangs}
use deric_rpc.Os.{Kernel}
use deric_rpc.Io.Connection.{IoClients}
use deric_rpc.Io.Events.{IoModule}
use deric_rpc.Serial.{Msgpack, Packing}
use deric_rpc.Config
use deric_rpc.Process.{Process}
use deric_rpc.Process
use deric_rpc.Client.Entry.{ClientEntry, new_client_entry, init, deinit, invoke, disconnect_entry}
use deric_rpc.Client.Entry.Connect.{connect}
use deric_rpc.Client.Entry.Sync.{begin_sync, end_sync}
use deric_rpc.Client.Entry.Waiting.{Phase, gave_up, WaitState}
use deric_rpc.Example.Api.{
  rpc_service_deric_test, rpc_service_deric_test_hello, rpc_service_deric_test_add,
  rpc_service_deric_test_minor,
}
use deric_rpc.Example.Console.{Console, decimal}

abbrev service_book_key : Bytes
service_book_key = b'S' ∷ b'e' ∷ b'r' ∷ b'v' ∷ b'i' ∷ b'c' ∷ b'e' ∷ b'B' ∷ b'o' ∷ b'o' ∷ b'k' ∷ []

abbrev whats_up : Bytes
whats_up = b'w' ∷ b'h' ∷ b'a' ∷ b't' ∷ b'\'' ∷ b's' ∷ b' ' ∷ b'u' ∷ b'p' ∷ []

-- The line for a call that failed.
abbrev pub failed_line : Bytes → Bytes
failed_line func =
    (b'c' ∷ b'a' ∷ b'l' ∷ b'l' ∷ []) ++ (func ++ (b'f' ∷ b'a' ∷ b'i' ∷ b'l' ∷ b'e' ∷ b'd' ∷ []))

-- What the wait for the reply to an id comes to, from where the caller stands; the event thread may
-- change the client and the world meanwhile. `none` is a wait without an end.
abbrev pub Wait : Type 0 → Type 0
Wait W = ℤ → WaitState → ClientEntry → W → Option (WaitState × ClientEntry × W)

-- What `main` holds, and the event module of the process.
pub record Program (W : Type 0) : Type 0 where
  pub process : Process
  pub io_module : IoModule
  pub client_entry : ClientEntry
  pub world : W

module _ (mp : Msgpack) {W : Type 0} (console : Console W) (pairs : Packing mp.Object (ℤ × ℤ))
    (words : Packing mp.Object Bytes) (os : Kernel W) where
  -- A call that has failed does not wait.
  abbrev await :
      Wait W → ℤ → Phase → WaitState → ClientEntry → W → Option (WaitState × ClientEntry × W)
  await wait id gave_up s c w = some (s, c, w)
  await wait id _ s c w = wait id s c w

  -- `invokeWithResultSync<int>` and the line that follows. The result is `res` behind the call, the
  -- client, the world and the counter of message ids.
  unfoldable pub show_call :
      Wait W → Bytes → ℤ × ℤ → ℤ → ℕ → ClientEntry → W → Option (ℤ × ClientEntry × W × ℕ)
  show_call wait func args res index c w = do
    (id, s, c₁, w₁, index₁) ← begin_sync mp os pairs func args index c w
    (t, c₂, w₂) ← await wait id s.phase s c₁ w₁
    (called, value) ← end_sync mp mp.ints res t.phase
    some (
      value,
      record c₂ { waiting_items = t.items },
      console.print_line (if is_neg called then failed_line func else decimal value) w₂,
      index₁,
    )

  -- `invoke` of `hello`, and the line where it fails.
  unfoldable pub show_hello : ℕ → ClientEntry → W → Option (ClientEntry × W × ℕ)
  show_hello index c w = do
    (called, c₁, w₁, index₁) ← invoke mp os words rpc_service_deric_test_hello whats_up index c w
    some (
      c₁,
      if is_neg called
          then console.print_line (failed_line rpc_service_deric_test_hello) w₁
          else w₁,
      index₁,
    )

  -- The three calls and the end. `uninitialized` is what `res` holds at first. The process is not
  -- ended.
  unfoldable pub make_calls :
      Wait W → ℤ → ℕ → Process → IoModule → ClientEntry → W → Option (Program W)
  unfolding show_call show_hello
  make_calls wait uninitialized index process m c w = do
    (res, c₁, w₁, index₁) ←
        show_call wait rpc_service_deric_test_add (pos 1, pos 2) uninitialized index c w
    (c₂, w₂, index₂) ← show_hello index₁ c₁ w₁
    (_, c₃, w₃, _) ← show_call wait rpc_service_deric_test_minor (pos 3, pos 1) res index₂ c₂ w₂
    let (_, c₄, w₄) = disconnect_entry mp os c₃ w₃
    let (_, c₅) = deinit c₄
    some (record { process = process; io_module = m; client_entry = c₅; world = w₄ })

  -- Behind `connect`, whose result is not looked at; an exception ends the program.
  abbrev behind_connect :
      Wait W → ℤ → ℕ → Process → Call (ℤ × ClientEntry × IoModule × W) → Option (Program W)
  behind_connect wait uninitialized index process throws = none
  behind_connect wait uninitialized index process hangs = none
  behind_connect wait uninitialized index process (returns (_, c, m, w)) =
      make_calls wait uninitialized index process m c w

  -- `main`. `self` and `object` are the numbers of the client object and of its connection.
  unfoldable pub run_client :
      IoClients W
      → (Bytes → Option ℤ)
      → (Bytes → Option Bytes)
      → Wait W
      → ℤ
      → ℕ
      → ℕ
      → ℕ
      → Option Bytes
      → Process
      → IoModule
      → W
      → Option (Program W)
  run_client clients stoi open_file wait uninitialized index self object file process m w = do
    let (_, process₁, m₁, w₁, _) = Process.entry_init os process m w
    (_, items) ← Config.init file []
    let (_, c) = init (lookup service_book_key items) new_client_entry
    called ← connect os clients stoi open_file rpc_service_deric_test self object c m₁ w₁
    behind_connect wait uninitialized index process₁ called
