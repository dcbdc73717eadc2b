-- ===== src/Example/Server/Serving.antt =====
-- The program of example/server/server.cpp once it serves: what its `main` has set up, and its
-- answers to requests.
use deric_rpc.Prelude.{
  ℕ, ℤ, Bytes, [], ◌∷◌, ◌≡◌, refl, ◌∙◌, true, Option, some, arith, success, Bool, Dict, lookup,
  insert, contains, bytes_equality,
}
use deric_rpc.Common.{initialized, started}
use deric_rpc.Os.{Kernel}
use deric_rpc.Io.Events.{IoModule}
use deric_rpc.Io.Server.{TcpIoServer, TcpIoServerConfig, new_tcp_io_server}
use deric_rpc.Io.Server
use deric_rpc.Serial.{Msgpack, Packing}
use deric_rpc.Serial.Laws.{RoundTrips}
use deric_rpc.Function.{
  FunctionHelper, exec_void, exec_member_result, call_member_func, set_serialer,
}
use deric_rpc.Config
use deric_rpc.Process.{Process}
use deric_rpc.Process
use deric_rpc.Client.Entry.{request}
use deric_rpc.Server.Service.{Service, new_service}
use deric_rpc.Server.Service
use deric_rpc.Server.Registry.{handle_data, register_method}
use deric_rpc.Server.Registry.Methods.{handle_command-lookup}
use deric_rpc.Server.Entry.{
  WithHelper, ServiceEntry, ip_key, port_key, locked, new_service_entry, kernel,
}
use deric_rpc.Server.Entry
use deric_rpc.Server.Entry.Registered.{locked-helper, start_server-helper}
use deric_rpc.Rpc.Messages.{replied, reply_with, get_message_data-request}
use deric_rpc.Rpc.Call.{handle_data-request}
use deric_rpc.Example.Api.{
  rpc_service_deric_test, rpc_service_deric_test_hello, rpc_service_deric_test_add,
  rpc_service_deric_test_minor,
}
use deric_rpc.Example.Console.{Console, int_add, int_sub}
use deric_rpc.Example.Server.{
  test_cal, shown, add, minor, hello, member_over, void_over, Program, exec_hello, exec_caculator,
  register_methods, start_service, set_up,
}

module _ (mp : Msgpack) {W : Type 0} where
  -- A started service with its serialer that finds a function under a name, when the helper has its
  -- serialer too.
  handle_data-member :
      {O A R : Type 0} (p : Packing mp.Object A) (q : Packing mp.Object R)
      (func : O → A → W → R × W) (obj : O) (name : Bytes) (msg_id : ℤ) (a : A)
      (s : Service (WithHelper W)) (w : WithHelper W)
      → RoundTrips mp mp.ints
      → RoundTrips mp mp.strings
      → RoundTrips mp p
      → s.state ≡ started
      → s.has_serialer ≡ true
      → w.func_helper ≡ some (record { has_serialer = true })
      → lookup name s.functions
        ≡ some (locked (λ h. exec_member_result mp p q h (member_over func) obj))
      → handle_data mp s (some (request mp p name msg_id a)) [] w ≡ (
        success,
        reply_with mp q name msg_id (func obj a w.world).0,
        record w { world = (func obj a w.world).1 },
      )
  unfolding exec_member_result call_member_func
  handle_data-member p q func obj name msg_id a s w ints strings law up serialer helper found =
      let req = request mp p name msg_id a in
      let exec = λ (h : FunctionHelper). exec_member_result mp p q h (member_over func) obj in
      handle_data-request mp p s name msg_id a w ints strings up serialer
      ∙ handle_command-lookup name req (replied mp name msg_id) s w (some (locked exec)) found
      ∙ locked-helper exec (record { has_serialer = true }) req (replied mp name msg_id) w helper
      ∙ rw (get_message_data-request mp p name msg_id a ints strings law) refl

  handle_data-void :
      {A : Type 0} (p : Packing mp.Object A) (func : A → W → W) (name : Bytes) (msg_id : ℤ) (a : A)
      (s : Service (WithHelper W)) (w : WithHelper W)
      → RoundTrips mp mp.ints
      → RoundTrips mp mp.strings
      → RoundTrips mp p
      → s.state ≡ started
      → s.has_serialer ≡ true
      → w.func_helper ≡ some (record { has_serialer = true })
      → lookup name s.functions ≡ some (locked (λ h. exec_void mp p h (void_over func)))
      → handle_data mp s (some (request mp p name msg_id a)) [] w
        ≡ (success, [], record w { world = func a w.world })
  unfolding exec_void
  handle_data-void p func name msg_id a s w ints strings law up serialer helper found =
      let req = request mp p name msg_id a in
      let exec = λ (h : FunctionHelper). exec_void mp p h (void_over func) in
      handle_data-request mp p s name msg_id a w ints strings up serialer
      ∙ handle_command-lookup name req (replied mp name msg_id) s w (some (locked exec)) found
      ∙ locked-helper exec (record { has_serialer = true }) req (replied mp name msg_id) w helper
      ∙ rw (get_message_data-request mp p name msg_id a ints strings law) refl

module _ (mp : Msgpack) {W : Type 0} (console : Console W) (pairs : Packing mp.Object (ℤ × ℤ))
    (words : Packing mp.Object Bytes) (os : Kernel W) where
  -- The server before its start.
  abbrev configured_server : ℕ → ℤ → Bytes → ℤ → TcpIoServer
  configured_server self uninitialized ip port = record new_tcp_io_server {
    ip = ip;
    port = port;
    max_connection_number = uninitialized;
    client = some self;
    state = initialized;
  }

  abbrev with_helper : W → WithHelper W
  with_helper w = record { func_helper = some (record { has_serialer = true }); world = w }

  -- The service with its three functions.
  abbrev pub three_functions : Service (WithHelper W) → Service (WithHelper W)
  three_functions s = record s {
    functions =
        (rpc_service_deric_test_hello, locked (exec_hello mp console pairs words))
        ∷ (rpc_service_deric_test_add, locked (exec_caculator mp console pairs words (add console)))
        ∷ (
          rpc_service_deric_test_minor,
          locked (exec_caculator mp console pairs words (minor console)),
        )
        ∷ [];
  }

  abbrev pub serving_service : TcpIoServer → Service (WithHelper W)
  serving_service t = record (three_functions (new_service rpc_service_deric_test)) {
    has_serialer = true;
    io_server = some t;
    state = started;
  }

  register_methods_three :
      (s : Service (WithHelper W)) (w : WithHelper W) (h : FunctionHelper)
      → s.functions ≡ []
      → w.func_helper ≡ some h
      → register_methods mp console pairs words
          (record { service_name = rpc_service_deric_test; service_impl = some s })
          w
        ≡ record { service_name = rpc_service_deric_test; service_impl = some (three_functions s) }
  unfolding register_methods Entry.register_method register_method contains insert
  register_methods_three s w h none_yet helper = ground (arith, none_yet, helper)

  set_up_serves :
      (stoi : Bytes → Option ℤ) (uninitialized : ℤ) (self server_entry : ℕ) (file : Option Bytes)
      (items : Dict Bytes Bytes) (ip port : Bytes) (number : ℤ) (t : TcpIoServer)
      (process process₁ : Process) (m m₁ m₂ : IoModule) (w w₁ : W) (v₂ : WithHelper W)
      (res read : ℤ) (spawned : Bool)
      → Process.init os process m w ≡ (res, process₁, m₁, w₁, spawned)
      → Config.init file [] ≡ some (read, items)
      → lookup ip_key items ≡ some ip
      → lookup port_key items ≡ some port
      → stoi port ≡ some number
      → Server.start
          (kernel os)
          server_entry
          (configured_server self uninitialized ip number)
          m₁
          (with_helper w₁)
        ≡ some (success, t, m₂, v₂)
      → set_up mp console pairs words os stoi uninitialized self server_entry file process m w
        ≡ some (record {
          process = process₁;
          io_module = m₂;
          service_entry = record {
            service_name = rpc_service_deric_test;
            service_impl = some (serving_service t);
          };
          world = v₂;
        })
  unfolding set_up start_service new_tcp_io_server new_service_entry Entry.init set_serialer
      Config.get_value Service.init Server.init new_service Entry.start Service.start
  set_up_serves stoi uninitialized self server_entry file items ip port number t process process₁ m
        m₁ m₂ w w₁ v₂ res read spawned begun parsed has_ip has_port reads starts =
      let s : Service (WithHelper W) = record (new_service rpc_service_deric_test) {
        has_serialer = true;
        io_server = some (configured_server self uninitialized ip number);
        state = initialized;
      } in
      ground (
        arith,
        begun,
        parsed,
        has_ip,
        has_port,
        reads,
        starts,
        register_methods_three s (with_helper w₁) (record { has_serialer = true }) refl refl,
      )

  -- Once `main` of the example server has set up its process, its service and its three functions, it
  -- serves: the server listens with the address and the port of the configuration file; a request
  -- for `add` is answered with the sum of its two numbers and shown on the output with it, one for
  -- `minor` is answered with the difference and shown with the sum in its place, and one for
  -- `hello` is shown and not answered. The file gives an address and a port that `std::stoi` reads,
  -- the server starts, and msgpack round-trips the types; the results of the other calls do not
  -- matter.
  pub main_serves :
      (stoi : Bytes → Option ℤ) (uninitialized : ℤ) (self server_entry : ℕ) (file : Option Bytes)
      (items : Dict Bytes Bytes) (ip port : Bytes) (number : ℤ) (t : TcpIoServer)
      (process process₁ : Process) (m m₁ m₂ : IoModule) (w w₁ : W) (v₂ : WithHelper W)
      (res read : ℤ) (spawned : Bool) (msg_id a b : ℤ) (str : Bytes)
      → RoundTrips mp mp.ints
      → RoundTrips mp mp.strings
      → RoundTrips mp pairs
      → RoundTrips mp words
      → Process.init os process m w ≡ (res, process₁, m₁, w₁, spawned)
      → Config.init file [] ≡ some (read, items)
      → lookup ip_key items ≡ some ip
      → lookup port_key items ≡ some port
      → stoi port ≡ some number
      → Server.start
          (kernel os)
          server_entry
          (configured_server self uninitialized ip number)
          m₁
          (with_helper w₁)
        ≡ some (success, t, m₂, v₂)
      → (p : Program W) × (s : Service (WithHelper W)) × (set_up mp console pairs words os stoi
            uninitialized self server_entry file process m w
          ≡ some p)
        × (p.service_entry.service_impl ≡ some s)
        × (s.io_server ≡ some t)
        × (t.ip ≡ ip)
        × (t.port ≡ number)
        × (t.state ≡ started)
        × (handle_data mp s
              (some (request mp pairs rpc_service_deric_test_add msg_id (a, b)))
              []
              p.world
            ≡ (
              success,
              reply_with mp mp.ints rpc_service_deric_test_add msg_id (int_add a b),
              record p.world {
                world = console.print_line (shown b'+' a b (int_add a b)) p.world.world;
              },
            ))
        × (handle_data mp s
              (some (request mp pairs rpc_service_deric_test_minor msg_id (a, b)))
              []
              p.world
            ≡ (
              success,
              reply_with mp mp.ints rpc_service_deric_test_minor msg_id (int_sub a b),
              record p.world {
                world = console.print_line (shown b'-' a b (int_add a b)) p.world.world;
              },
            ))
        × (handle_data mp s
              (some (request mp words rpc_service_deric_test_hello msg_id str))
              []
              p.world
            ≡ (success, [], record p.world { world = console.print_line str p.world.world }))
  unfolding add minor hello lookup Server.start new_tcp_io_server
  main_serves stoi uninitialized self server_entry file items ip port number t process process₁ m m₁
        m₂ w w₁ v₂ res read spawned msg_id a b str ints strings law words_law begun parsed has_ip
        has_port reads starts =
      let s = serving_service t in
      let helper : v₂.func_helper ≡ some (record { has_serialer = true }) =
        start_server-helper os server_entry (configured_server self uninitialized ip number) t m₁ m₂
          (with_helper w₁) v₂ success starts in
      (
        _,
        s,
        set_up_serves stoi uninitialized self server_entry file items ip port number t process
            process₁ m m₁ m₂ w w₁ v₂ res read spawned begun parsed has_ip has_port reads starts,
        refl,
        refl,
        ground (arith, starts),
        ground (arith, starts),
        ground (arith, starts),
        handle_data-member mp pairs mp.ints (add console) test_cal rpc_service_deric_test_add msg_id
            (a, b) s v₂ ints strings law refl refl helper refl,
        handle_data-member mp pairs mp.ints (minor console) test_cal rpc_service_deric_test_minor
            msg_id (a, b) s v₂ ints strings law refl refl helper refl,
        handle_data-void mp words (hello console) rpc_service_deric_test_hello msg_id str s v₂ ints
            strings words_law refl refl helper refl,
      )
