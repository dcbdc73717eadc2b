-- ===== src/Example/Client/Failing.antt =====
-- The program of example/client/client.cpp without its service.
use deric_rpc.Prelude.{
  ◌+◌, ◌^◌, ◌<◌, ℕ, ℤ, pos, Bytes, [], ◌≡◌, ◌⊎◌, Option, none, some, arith, failure, Bool,
  Bool-cases, ◌+◌, Dict, lookup, inl, inr, bytes_equality,
}
use deric_rpc.Common.{returns}
use deric_rpc.Os.{Kernel}
use deric_rpc.Io.Connection.{IoClients}
use deric_rpc.Io.Events.{IoModule}
use deric_rpc.Serial.{Msgpack, Packing}
use deric_rpc.Config
use deric_rpc.Process.{Process}
use deric_rpc.Process
use deric_rpc.Client.Impl.{ClientImpl, send_msg, disconnect}
use deric_rpc.Client.Entry.{
  ClientEntry, new_client_entry, init, deinit, invoke, disconnect_entry, get_message_id_of,
}
use deric_rpc.Client.Entry.Connect.{connect}
use deric_rpc.Client.Entry.Sync.{begin_sync, end_sync}
use deric_rpc.Example.Api.{
  rpc_service_deric_test, rpc_service_deric_test_hello, rpc_service_deric_test_add,
  rpc_service_deric_test_minor,
}
use deric_rpc.Example.Console.{Console}
use deric_rpc.Example.Client.{
  Wait, failed_line, service_book_key, whats_up, show_call, show_hello, make_calls, run_client,
}

-- A client without a connection.
abbrev pub IsUnconnected : ClientEntry → Type 0
IsUnconnected c =
    (c.client_impl ≡ none)
    ⊎ ((impl : ClientImpl) × (c.client_impl ≡ some impl) × (impl.io_connection ≡ none))

module _ (mp : Msgpack) {W : Type 0} (console : Console W) (pairs : Packing mp.Object (ℤ × ℤ))
    (words : Packing mp.Object Bytes) (os : Kernel W) where
  invoke-unconnected :
      {A : Type 0} (p : Packing mp.Object A) (func : Bytes) (a : A) (index : ℕ) (c : ClientEntry)
      (w : W)
      → IsUnconnected c
      → (index' : ℕ) × (invoke mp os p func a index c w ≡ some (failure, c, w, index'))
  unfolding invoke get_message_id_of send_msg
  invoke-unconnected p func a index c w (inl none_yet) = (index, ground (arith, none_yet))
  invoke-unconnected p func a index c w (inr (impl, has, bare)) = elim (Bool-cases c.has_serialer) [
    | inl ready ↦ (index + 1, ground (arith, has, bare, ready))
    | inr unready ↦ (index, ground (arith, has, unready))
  ]

  show_call-unconnected :
      (wait : Wait W) (func : Bytes) (args : ℤ × ℤ) (res : ℤ) (index : ℕ) (c : ClientEntry) (w : W)
      → IsUnconnected c
      → (index' : ℕ) × (show_call mp console pairs words os wait func args res index c w
          ≡ some (res, c, console.print_line (failed_line func) w, index'))
  unfolding show_call begin_sync end_sync
  show_call-unconnected wait func args res index c w h =
      let (index', failed) = invoke-unconnected pairs func args index c w h in
      (index', ground (arith, failed))

  make_calls-unconnected :
      (wait : Wait W) (uninitialized : ℤ) (index : ℕ) (process : Process) (m : IoModule)
      (c : ClientEntry) (w : W)
      → IsUnconnected c
      → let w₁ = console.print_line (failed_line rpc_service_deric_test_add) w in
        let w₂ = console.print_line (failed_line rpc_service_deric_test_hello) w₁ in
        make_calls mp console pairs words os wait uninitialized index process m c w
        ≡ some (record {
          process = process;
          io_module = m;
          client_entry = (deinit c).1;
          world = console.print_line (failed_line rpc_service_deric_test_minor) w₂;
        })
  unfolding make_calls show_hello disconnect_entry disconnect deinit
  make_calls-unconnected wait uninitialized index process m c w h =
      let w₁ = console.print_line (failed_line rpc_service_deric_test_add) w in
      let w₂ = console.print_line (failed_line rpc_service_deric_test_hello) w₁ in
      let (index₁, one) =
        show_call-unconnected wait rpc_service_deric_test_add (pos 1, pos 2) uninitialized index c w
          h in
      let (index₂, two) =
        invoke-unconnected words rpc_service_deric_test_hello whats_up index₁ c w₁ h in
      let (_, three) =
        show_call-unconnected wait rpc_service_deric_test_minor (pos 3, pos 1) uninitialized index₂
          c w₂ h in
      elim h [
        | inl none_yet ↦ ground (arith, one, two, three, none_yet)
        | inr (impl, has, bare) ↦ ground (arith, one, two, three, has, bare)
      ]

  -- Where the example client gets no connection, it comes to its end all the same: it shows the three
  -- lines that say that `add`, `hello` and `minor` failed, in this order, waits for nothing, and
  -- leaves its client as `deinit` does; its process is left as its `init` left it, by whichever
  -- result. Its `connect` returns, by whichever result, with a client that has no connection, and the
  -- counter of message ids stays below the largest `int` for three more calls.
  pub run_client_fails :
      (clients : IoClients W) (stoi : Bytes → Option ℤ) (open_file : Bytes → Option Bytes)
      (wait : Wait W) (uninitialized : ℤ) (index self object : ℕ) (file : Option Bytes)
      (items : Dict Bytes Bytes) (process process₁ : Process) (m m₁ m₂ : IoModule) (w w₁ w₂ : W)
      (c : ClientEntry) (res read connected : ℤ) (spawned : Bool)
      → index + 3 < 2 ^ 31
      → Process.init os process m w ≡ (res, process₁, m₁, w₁, spawned)
      → Config.init file [] ≡ some (read, items)
      → connect os clients stoi open_file rpc_service_deric_test self object
          (init (lookup service_book_key items) new_client_entry).1
          m₁
          w₁
        ≡ some (returns (connected, c, m₂, w₂))
      → IsUnconnected c
      → run_client mp console pairs words os clients stoi open_file wait uninitialized index self
          object file process m w
        ≡ some (record {
          process = process₁;
          io_module = m₂;
          client_entry = new_client_entry;
          world = console.print_line (failed_line rpc_service_deric_test_minor) (
              console.print_line
                (failed_line rpc_service_deric_test_hello)
                (console.print_line (failed_line rpc_service_deric_test_add) w₂));
        })
  unfolding run_client deinit new_client_entry
  run_client_fails clients stoi open_file wait uninitialized index self object file items process
        process₁ m m₁ m₂ w w₁ w₂ c res read connected spawned bound begun parsed called h =
      ground (
        arith,
        begun,
        parsed,
        called,
        make_calls-unconnected wait uninitialized index process₁ m₂ c w₂ h,
      )
