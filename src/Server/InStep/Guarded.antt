-- ===== src/Server/InStep/Guarded.antt =====
-- The mutex of the event module's members, where the system gives out no descriptor that is in use:
-- deric_rpc/io/src/io_module.cpp, `addIoMember` and `removeIoMember`, as the event thread of a process
-- with one service reaches them.
pub mod Calls
pub mod Admission
pub mod Rounds
pub mod Start
use deric_rpc.Prelude.{
  ℕ, ℤ, Bytes, ◌≡◌, false, Option, none, some, lookup, int_beq, is_neg, int_equality,
  bytes_equality, subst, arith,
}
use deric_rpc.Common.{started}
use deric_rpc.Os.{Kernel, EpollOp}
use deric_rpc.Function.{ServiceFunction}
use deric_rpc.Io.Events.{IoModule, IoMember}
use deric_rpc.Io.Server.{TcpIoServer}
use deric_rpc.Server.Service.{Service}

-- Which descriptors are in use. A new one was not in use before, and nothing but `close` ends one.
pub record Descriptors {V : Type 0} (os : Kernel V) (InUse : ℤ → V → Type 0) : Type 0 where
  pub accept_fresh :
      (fd : ℤ) (w : V) → is_neg (os.accept fd w).0 ≡ false → ¬ InUse (os.accept fd w).0 w
  pub accept_opens :
      (fd : ℤ) (w : V)
      → is_neg (os.accept fd w).0 ≡ false
      → InUse (os.accept fd w).0 (os.accept fd w).1
  pub socket_opens :
      (w : V) → is_neg (os.socket w).0 ≡ false → InUse (os.socket w).0 (os.socket w).1
  pub bind :
      (fd : ℤ) (ip : Bytes) (port d : ℤ) (w : V) → InUse d w → InUse d (os.bind fd ip port w).1
  pub listen : (fd backlog d : ℤ) (w : V) → InUse d w → InUse d (os.listen fd backlog w).1
  pub accept : (fd d : ℤ) (w : V) → InUse d w → InUse d (os.accept fd w).1
  pub recv : (fd : ℤ) (n : ℕ) (d : ℤ) (w : V) → InUse d w → InUse d (os.recv fd n w).1
  pub send : (fd : ℤ) (bytes : Bytes) (d : ℤ) (w : V) → InUse d w → InUse d (os.send fd bytes w).1
  pub epoll_ctl :
      (op : EpollOp) (epfd fd d : ℤ) (w : V) → InUse d w → InUse d (os.epoll_ctl op epfd fd w).1
  pub write_byte : (fd : ℤ) (b : ℕ) (d : ℤ) (w : V) → InUse d w → InUse d (os.write_byte fd b w).1
  pub read_byte : (fd d : ℤ) (w : V) → InUse d w → InUse d (os.read_byte fd w).1
  pub close : (fd d : ℤ) (w : V) → int_beq fd d ≡ false → InUse d w → InUse d (os.close fd w)

-- The functions of a service end no descriptor.
abbrev pub Harmless : {V : Type 0} → (ℤ → V → Type 0) → Service V → Type 0
Harmless {V} InUse s =
    (name request result_string : Bytes) (f : ServiceFunction V) (d : ℤ) (w : V)
    → lookup name s.functions ≡ some f
    → InUse d w
    → InUse d (f request result_string w).2

-- The mutex is free and all members are in use; a server that runs has the member of its socket.
pub record Guarded {V : Type 0} (InUse : ℤ → V → Type 0) (s : Service V) (m : IoModule) (w : V)
    : Type 0 where
  pub free : m.members_locked ≡ false
  pub in_use : (d : ℤ) (object : ℕ) → lookup d m.io_members ≡ some object → InUse d w
  pub server :
      (t : TcpIoServer)
      → s.io_server ≡ some t
      → t.state ≡ started
      → (member : IoMember) × (t.io_entry ≡ some member) × (t.socket_fd ≡ member.fd)

module _ {V : Type 0} (InUse : ℤ → V → Type 0) where
  pub moved-Guarded :
      (s s' : Service V) (m m' : IoModule) (w w' : V)
      → Guarded InUse s m w
      → s ≡ s'
      → m ≡ m'
      → w ≡ w'
      → Guarded InUse s' m' w'
  moved-Guarded s s' m m' w w' g p q r =
      subst (Guarded InUse s' m') r
        (subst (λ n. Guarded InUse s' n w) q (subst (λ t. Guarded InUse t m w) p g))

  -- Only the server matters of a service.
  pub served-Guarded :
      (s s' : Service V) (m : IoModule) (w : V)
      → s'.io_server ≡ s.io_server
      → Guarded InUse s m w
      → Guarded InUse s' m w
  served-Guarded s s' m w same g = record {
    free = g.free;
    in_use = g.in_use;
    server = λ t has running. g.server t (ground (arith, same, has)) running;
  }

  -- The world goes on without an end of a descriptor.
  pub later-Guarded :
      (s : Service V) (m : IoModule) (w w' : V)
      → ((d : ℤ) → InUse d w → InUse d w')
      → Guarded InUse s m w
      → Guarded InUse s m w'
  later-Guarded s m w w' on g = record {
    free = g.free;
    in_use = λ d object found. on d (g.in_use d object found);
    server = g.server;
  }
