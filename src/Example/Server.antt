-- ===== src/Example/Server.antt =====
-- The program of example/server/server.cpp: `main` from its first call to the loop over the lines of
-- the standard input, and its end. The event thread, which runs beside it, is not part of these
-- functions.
pub mod Serving
pub mod Closing
use deric_rpc.Prelude.{
  ℕ, Bool, true, false, Bytes, List, [], ◌∷◌, ◌++◌, Option, none, some, ◌>>=◌, ℤ, Dict, bytes_beq,
  if◌then◌else◌,
}
use deric_rpc.Os.{Kernel}
use deric_rpc.Io.Events.{IoModule}
use deric_rpc.Serial.{Msgpack, Packing}
use deric_rpc.Function.{FunctionHelper, ServiceFunction, exec_void, exec_member_result}
use deric_rpc.Config
use deric_rpc.Process.{Process}
use deric_rpc.Process
use deric_rpc.Server.Entry.{
  WithHelper, ServiceEntry, new_service_entry, register_method, unregister_method,
}
use deric_rpc.Server
use deric_rpc.Example.Api.{
  rpc_service_deric_test, rpc_service_deric_test_hello, rpc_service_deric_test_add,
  rpc_service_deric_test_minor,
}
use deric_rpc.Example.Console.{Console, decimal, int_add, int_sub}

-- An object without fields.
pub data Caculator : Type 0 where
  test_cal : Caculator

-- The line that shows two numbers with an operator and a result.
abbrev pub shown : ℕ → ℤ → ℤ → ℤ → Bytes
shown operator a b result =
    decimal a ++ (b' ' ∷ operator ∷ b' ' ∷ (decimal b ++ (b' ' ∷ b'=' ∷ b' ' ∷ decimal result)))

module _ {W : Type 0} (console : Console W) where
  unfoldable pub add : Caculator → ℤ × ℤ → W → ℤ × W
  add cal (a, b) w = (int_add a b, console.print_line (shown b'+' a b (int_add a b)) w)

  -- The line shows the sum.
  unfoldable pub minor : Caculator → ℤ × ℤ → W → ℤ × W
  minor cal (a, b) w = (int_sub a b, console.print_line (shown b'-' a b (int_add a b)) w)

  unfoldable pub hello : Bytes → W → W
  hello str w = console.print_line str w

-- The functions over a world that has the service's helper beside it.
abbrev pub member_over :
    {W O A R : Type 0} → (O → A → W → R × W) → O → A → WithHelper W → R × WithHelper W
member_over func obj a w = let (r, v) = func obj a w.world in (r, record w { world = v })

abbrev pub void_over : {W A : Type 0} → (A → W → W) → A → WithHelper W → WithHelper W
void_over func a w = record w { world = func a w.world }

-- What `main` holds, and the event module of the process.
pub record Program (W : Type 0) : Type 0 where
  pub process : Process
  pub io_module : IoModule
  pub service_entry : ServiceEntry W
  pub world : WithHelper W

abbrev pub exit_line : Bytes
exit_line = b'e' ∷ b'x' ∷ b'i' ∷ b't' ∷ []

abbrev pub close_line : Bytes
close_line =
    b'c' ∷ b'l' ∷ b'o' ∷ b's' ∷ b'e' ∷ b' ' ∷ b't' ∷ b'h' ∷ b'e' ∷ b' ' ∷ b's' ∷ b'e' ∷ b'r' ∷ b'v'
    ∷ b'e' ∷ b'r' ∷ []

-- `pairs` and `words` pack the tuples of the arguments, of two numbers and of one string.
module _ (mp : Msgpack) {W : Type 0} (console : Console W) (pairs : Packing mp.Object (ℤ × ℤ))
    (words : Packing mp.Object Bytes) where
  abbrev pub exec_hello : FunctionHelper → ServiceFunction (WithHelper W)
  exec_hello h = exec_void mp words h (void_over (hello console))

  abbrev pub exec_caculator :
      (Caculator → ℤ × ℤ → W → ℤ × W) → FunctionHelper → ServiceFunction (WithHelper W)
  exec_caculator func h = exec_member_result mp pairs mp.ints h (member_over func) test_cal

  -- The three calls of `registerMethod`, whose results are not looked at.
  unfoldable pub register_methods : ServiceEntry W → WithHelper W → ServiceEntry W
  register_methods e w =
      let (_, e₁) = register_method exec_hello rpc_service_deric_test_hello e w in
      let (_, e₂) =
        register_method (exec_caculator (add console)) rpc_service_deric_test_add e₁ w in
      (register_method (exec_caculator (minor console)) rpc_service_deric_test_minor e₂ w).1

  module _ (os : Kernel W) where
    -- From the construction of the service entry up to its `start`, with the items of the
    -- configuration. `self` and `server_entry` are the numbers of the service object and of the
    -- entry that its server makes. `none` is an exception, which ends the program, or a call that
    -- never returns.
    start_service :
        (Bytes → Option ℤ)
        → ℤ
        → ℕ
        → ℕ
        → Dict Bytes Bytes
        → Process
        → IoModule
        → W
        → Option (Program W)
    unfolding register_methods
    start_service stoi uninitialized self server_entry items process m w = do
      let (e, v) = new_service_entry rpc_service_deric_test w
      (res, e₁, v₁) ←
          Server.Entry.init stoi uninitialized (λ key val. Config.get_value key val items) self e v
      _ ← res
      (_, e₂, m₁, v₂) ← Server.Entry.start os server_entry (register_methods e₁ v₁) m v₁
      some (record { process = process; io_module = m₁; service_entry = e₂; world = v₂ })

    -- `main` up to the loop. No result of a call is looked at.
    unfoldable pub set_up :
        (Bytes → Option ℤ) → ℤ → ℕ → ℕ → Option Bytes → Process → IoModule → W → Option (Program W)
    unfolding start_service
    set_up stoi uninitialized self server_entry file process m w = do
      let (_, process₁, m₁, w₁, _) = Process.entry_init os process m w
      (_, items) ← Config.init file []
      start_service stoi uninitialized self server_entry items process₁ m₁ w₁

    -- What follows the line `exit`. The function `minor` is not unregistered.
    unfoldable pub close_server : Program W → Option (Program W)
    close_server p = do
      let v = record p.world { world = console.print_line close_line p.world.world }
      (_, e₁, m₁, v₁) ← Server.Entry.stop os p.service_entry p.io_module v
      let (_, e₂) = unregister_method rpc_service_deric_test_hello e₁
      let (_, e₃) = unregister_method rpc_service_deric_test_add e₂
      (_, e₄, m₂, v₂) ← Server.Entry.de_init os e₃ m₁ v₁
      let (_, process, m₃, w) = Process.entry_deinit os p.process m₂ v₂.world
      some (record {
        process = process;
        io_module = m₃;
        service_entry = e₄;
        world = record v₂ { world = w };
      })

    -- The loop over the lines of the standard input; the result says whether it has ended.
    unfoldable pub read_lines : List Bytes → Program W → Option (Bool × Program W)
    unfolding close_server
    read_lines [] p = some (false, p)
    read_lines (input ∷ inputs) p =
        let rest = read_lines inputs p in
        if bytes_beq input exit_line then (do p' ← close_server p; some (true, p')) else rest
