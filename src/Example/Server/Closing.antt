-- ===== src/Example/Server/Closing.antt =====
-- The end of the program of example/server/server.cpp: the line `exit` on its standard input, and
-- what is left of its service.
use deric_rpc.Prelude.{
  ℤ, Bytes, List, [], ◌∷◌, ◌++◌, ◌≡◌, refl, ◌∙◌, ap, true, false, none, some, arith, success,
  lookup, bytes_equality, bytes_beq, bytes_beq_iff, Option-cases, inl, inr, lookup-erase,
  contains-lookup, if◌then◌else◌,
}
use deric_rpc.Common.{created, initialized, started}
use deric_rpc.Os.{Kernel}
use deric_rpc.Io.Events.{IoModule}
use deric_rpc.Io.Server.{TcpIoServer}
use deric_rpc.Io.Server
use deric_rpc.Io.Server.Lifecycle.{stop_outcome}
use deric_rpc.Serial.{Msgpack, Packing}
use deric_rpc.Process
use deric_rpc.Server.Service.{Service, stop_clients}
use deric_rpc.Server.Service
use deric_rpc.Server.Registry
use deric_rpc.Server.Entry.{WithHelper, kernel}
use deric_rpc.Server.Entry
use deric_rpc.Example.Api.{
  rpc_service_deric_test_hello, rpc_service_deric_test_add, rpc_service_deric_test_minor,
}
use deric_rpc.Example.Console.{Console}
use deric_rpc.Example.Server.{Program, exit_line, close_line, close_server, read_lines}

module _ {W : Type 0} where
  -- What is left of a table of functions once one name is unregistered, whether it was there or not.
  unregister_method-left :
      (name other : Bytes) (s : Service W)
      → let s' = (Registry.unregister_method name s).1 in
        (s'.state ≡ s.state)
        × (s'.io_server ≡ s.io_server)
        × (lookup other s'.functions
            ≡ (if bytes_beq name other then none else lookup other s.functions))
  unfolding Registry.unregister_method
  unregister_method-left name other s = ground (
    arith,
    contains-lookup name s.functions,
    lookup-erase name other s.functions,
    bytes_beq_iff name other,
  )

module _ {W : Type 0} (os : Kernel W) where
  -- A service that has been stopped has its functions, and a server that is not running.
  stop-left :
      (s s' : Service W) (t : TcpIoServer) (m m' : IoModule) (w w' : W) (res : ℤ)
      → s.state ≡ started
      → s.io_server ≡ some t
      → t.state ≡ started
      → Service.stop os s m w ≡ some (res, s', m', w')
      → (s'.state ≡ initialized)
        × (s'.functions ≡ s.functions)
        × (t' : TcpIoServer) × (s'.io_server ≡ some t')
        × (t'.state ≡ initialized)
  unfolding Service.stop
  stop-left s s' t m m' w w' res up has serving stopped =
      elim (Option-cases (stop_clients os s.clients m w)) [
        | inl gone ↦ absurd (ground (arith, stopped, up, has, gone))
        | inr ((m₁, w₁), dropped) ↦ elim (Option-cases (Server.stop os t m₁ w₁)) [
          | inl gone ↦ absurd (ground (arith, stopped, up, has, dropped, gone))
          | inr ((r, t', m₂, w₂), closed) ↦
              let (_, same, _) = stop_outcome os t t' m₁ m₂ w₁ w₂ r serving closed in
              (
                ground (arith, stopped, up, has, dropped, closed),
                ground (arith, stopped, up, has, dropped, closed),
                t',
                ground (arith, stopped, up, has, dropped, closed),
                ground (arith, same),
              )
        ]
      ]

  -- The end of a service whose server is not running.
  de_init-idle :
      (s : Service W) (t : TcpIoServer) (m : IoModule) (w : W)
      → s.state ≡ initialized
      → s.io_server ≡ some t
      → t.state ≡ initialized
      → Service.de_init os s m w
        ≡ some (success, record s { io_server = none; has_serialer = false; state = created }, m, w)
  unfolding Service.de_init Server.de_init
  de_init-idle s t m w ready has idle = ground (arith, ready, has, idle)

-- Lines that do not end the program.
abbrev pub NoExit : List Bytes → Type 0
NoExit [] = Unit {0}
NoExit (input ∷ inputs) = (bytes_beq input exit_line ≡ false) × NoExit inputs

module _ (mp : Msgpack) {W : Type 0} (console : Console W) (pairs : Packing mp.Object (ℤ × ℤ))
    (words : Packing mp.Object Bytes) (os : Kernel W) where
  read_lines-exit :
      (before after : List Bytes) (p p' : Program W)
      → NoExit before
      → close_server mp console pairs words os p ≡ some p'
      → read_lines mp console pairs words os (before ++ (exit_line ∷ after)) p ≡ some (true, p')
  unfolding read_lines
  read_lines-exit [] after p p' h closed = ground (arith, closed, bytes_beq_iff exit_line exit_line)
  read_lines-exit (input ∷ inputs) after p p' (other, h) closed =
      ground (arith, other, read_lines-exit inputs after p p' h closed)

  -- The world that shows that the server closes.
  abbrev announced : Program W → WithHelper W
  announced p = record p.world { world = console.print_line close_line p.world.world }

  -- The example server goes on reading lines until the first that is `exit`, whatever follows it, and
  -- then ends: its service is stopped and back in the state before `init`, and the functions
  -- `hello` and `add` are unregistered, but `minor` stays registered. The service and its server
  -- have been started, and stopping the service comes back.
  pub exit_leaves_minor :
      (before after : List Bytes) (p : Program W) (s s₁ : Service (WithHelper W)) (t : TcpIoServer)
      (m₁ : IoModule) (v₁ : WithHelper W) (res : ℤ)
      → NoExit before
      → p.service_entry.service_impl ≡ some s
      → s.state ≡ started
      → s.io_server ≡ some t
      → t.state ≡ started
      → Service.stop (kernel os) s p.io_module (announced p) ≡ some (res, s₁, m₁, v₁)
      → (p' : Program W) × (s' : Service (WithHelper W)) × (read_lines mp console pairs words os
            (before ++ (exit_line ∷ after))
            p
          ≡ some (true, p'))
        × (p'.service_entry.service_impl ≡ some s')
        × (s'.state ≡ created)
        × (lookup rpc_service_deric_test_hello s'.functions ≡ none)
        × (lookup rpc_service_deric_test_add s'.functions ≡ none)
        × (lookup rpc_service_deric_test_minor s'.functions
            ≡ lookup rpc_service_deric_test_minor s.functions)
  unfolding close_server Entry.stop Entry.de_init Entry.unregister_method
  exit_leaves_minor before after p s s₁ t m₁ v₁ res h owned up has serving stopped =
      let (ready, functions, t', server, idle) =
        stop-left (kernel os) s s₁ t p.io_module m₁ (announced p) v₁ res up has serving stopped in
      let s₂ = (Registry.unregister_method rpc_service_deric_test_hello s₁).1 in
      let s₃ = (Registry.unregister_method rpc_service_deric_test_add s₂).1 in
      let left = λ (other : Bytes). unregister_method-left rpc_service_deric_test_hello other s₁ in
      let left₂ = λ (other : Bytes). unregister_method-left rpc_service_deric_test_add other s₂ in
      let ended =
        de_init-idle (kernel os) s₃ t' m₁ v₁
          ((left₂ rpc_service_deric_test_hello).0 ∙ (left rpc_service_deric_test_hello).0 ∙ ready)
          ((left₂ rpc_service_deric_test_hello).1 ∙ (left rpc_service_deric_test_hello).1 ∙ server)
          idle in
      let s' = record s₃ { io_server = none; has_serialer = false; state = created } in
      let (_, process, m₃, w) = Process.deinit os p.process m₁ v₁.world in
      let p' : Program W = record {
        process = process;
        io_module = m₃;
        service_entry = record p.service_entry { service_impl = some s' };
        world = record v₁ { world = w };
      } in
      (
        p',
        s',
        read_lines-exit before after p p' h (ground (arith, owned, stopped, ended)),
        refl,
        refl,
        (left₂ rpc_service_deric_test_hello).2 ∙ (left rpc_service_deric_test_hello).2,
        (left₂ rpc_service_deric_test_add).2,
        (left₂ rpc_service_deric_test_minor).2
            ∙ (left rpc_service_deric_test_minor).2
            ∙ ap (lookup rpc_service_deric_test_minor) functions,
      )
