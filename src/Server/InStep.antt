-- ===== src/Server/InStep.antt =====
-- A service and the event module of its process, whose tables belong together: the clients of
-- deric_rpc/rpc/server/src/rpc_service_impl.cpp and the members of deric_rpc/io/src/io_module.cpp.
pub mod Calls
pub mod Admission
pub mod Listening
pub mod Rounds
pub mod Guarded
pub mod Returning
use deric_rpc.Prelude.{
  ℕ, zero, ℤ, pos, ◌≡◌, refl, false, true, Option, Dict, if◌then◌else◌, none, some, arith, inl, inr,
  Bool-cases, subst, lookup, insert, erase, lookup-insert, lookup-erase, contains, contains-lookup,
  int_beq, int_beq_iff, int_equality, nat_beq, nat_beq_iff, nat_equality,
}
use deric_rpc.Common.{initialized, started}
use deric_rpc.Io.Connection.{Connection}
use deric_rpc.Io.Events.{IoModule, IoMember}
use deric_rpc.Io.Server.{TcpIoServer}
use deric_rpc.Server.Client.{ClientEntry}
use deric_rpc.Server.Service.{Service}
use deric_rpc.Server.Host.{connection_object, with_connection}

-- A connection that is started on a descriptor, under which the event module has it.
pub record IsOpen (m : IoModule) (id : ℕ) (c : Connection) : Type 0 where
  pub fd : ℕ
  pub up : c.state ≡ started
  pub opened : c.socket_fd ≡ pos fd
  pub registered : lookup (pos fd) m.io_members ≡ some (connection_object id)

-- A client with its open connection; the two point to each other.
pub record Attended (m : IoModule) (id : ℕ) (e : ClientEntry) : Type 0 where
  pub connection : Connection
  pub numbered : e.client_id ≡ id
  pub connected :
      e.io_connection ≡ some (record { object = connection_object id; connection = connection })
  pub client : connection.io_client ≡ some id
  pub is_open : IsOpen m id connection

-- All clients are attended to, and the server's entry is the member under its descriptor.
pub record InStep {V : Type 0} (s : Service V) (m : IoModule) : Type 0 where
  pub attended : (id : ℕ) (e : ClientEntry) → lookup id s.clients ≡ some e → Attended m id e
  pub listening :
      (t : TcpIoServer) (member : IoMember)
      → s.io_server ≡ some t
      → t.io_entry ≡ some member
      → lookup member.fd m.io_members ≡ some zero

-- Two services that differ in their clients and their server at most.
pub record Alike {V : Type 0} (s t : Service V) : Type 0 where
  pub state : t.state ≡ s.state
  pub serialer : t.has_serialer ≡ s.has_serialer
  pub functions : t.functions ≡ s.functions

-- A service and a module that have come from `s₀` and `m₀`. Nothing is said of a module whose mutex
-- stays locked, which answers no call any more.
pub record Follows {V : Type 0} (s₀ : Service V) (m₀ : IoModule) (s : Service V) (m : IoModule)
    : Type 0 where
  pub alike : Alike s₀ s
  pub pipe : m.wakeup_read_fd ≡ m₀.wakeup_read_fd
  pub in_step : m.members_locked ≡ false → InStep s m

module _ (m m' : IoModule) (id : ℕ) where
  -- What happens to other members does not matter to an open connection.
  pub keep-IsOpen :
      (c : Connection)
      → (h : IsOpen m id c) → lookup (pos h.fd) m'.io_members ≡ lookup (pos h.fd) m.io_members
      → IsOpen m' id c
  keep-IsOpen c h same = record {
    fd = h.fd;
    up = h.up;
    opened = h.opened;
    registered = ground (arith, same, h.registered);
  }

  pub keep-Attended :
      (e : ClientEntry)
      → (h : Attended m id e)
      → lookup (pos h.is_open.fd) m'.io_members ≡ lookup (pos h.is_open.fd) m.io_members
      → Attended m' id e
  keep-Attended e h same = record {
    connection = h.connection;
    numbered = h.numbered;
    connected = h.connected;
    client = h.client;
    is_open = keep-IsOpen h.connection h.is_open same;
  }

module _ {V : Type 0} (s : Service V) (m : IoModule) (h : InStep s m) where
  -- A client goes, and with it the member under its connection's descriptor.
  pub remove-InStep :
      (id fd : ℕ)
      → lookup (pos fd) m.io_members ≡ some (connection_object id)
      → InStep
          (record s { clients = erase id s.clients })
          (record m { io_members = erase (pos fd) m.io_members })
  remove-InStep id fd registered =
      let m' = record m { io_members = erase (pos fd) m.io_members } in
      record {
        attended = λ other e found.
            let a = h.attended other e (ground (arith, found, lookup-erase id other s.clients)) in
            keep-Attended m m' other e a (
              ground (
                arith,
                found,
                registered,
                a.is_open.registered,
                lookup-erase id other s.clients,
                lookup-erase (pos fd) (pos a.is_open.fd) m.io_members,
                int_beq_iff (pos fd) (pos a.is_open.fd),
                nat_beq_iff id other,
              ));
        listening = λ t member has entry. ground (
          arith,
          registered,
          h.listening t member has entry,
          lookup-erase (pos fd) member.fd m.io_members,
          int_beq_iff (pos fd) member.fd,
        );
      }

  -- An entry is replaced, or added to the table, with its open connection.
  pub put-InStep :
      (id : ℕ) (e : ClientEntry) (d : Dict ℕ ClientEntry)
      → ((other : ℕ)
          → lookup other d ≡ (if nat_beq id other then some e else lookup other s.clients))
      → Attended m id e
      → InStep (record s { clients = d }) m
  put-InStep id e d put a = record {
    attended = λ other e' found. elim (Bool-cases (nat_beq id other)) [
      | inl same ↦
          let there : (e ≡ e') × (id ≡ other) =
            ground (arith, found, same, put other, nat_beq_iff id other) in
          subst (Attended m other) there.0 (subst (λ n. Attended m n e) there.1 a)
      | inr differs ↦ h.attended other e' (ground (arith, found, differs, put other))
    ];
    listening = h.listening;
  }

  -- The server goes, with its member if it has one.
  pub close-InStep :
      (fd : ℤ) (t : TcpIoServer)
      → lookup fd m.io_members ≡ some zero
      → t.io_entry ≡ none
      → InStep (record s { io_server = some t }) (record m { io_members = erase fd m.io_members })
  close-InStep fd t registered gone =
      let m' = record m { io_members = erase fd m.io_members } in
      record {
        attended = λ id e found.
            let a = h.attended id e found in
            keep-Attended m m' id e a (
              ground (
                arith,
                registered,
                a.is_open.registered,
                lookup-erase fd (pos a.is_open.fd) m.io_members,
                int_beq_iff fd (pos a.is_open.fd),
              ));
        listening = λ t' member has entry. absurd (ground (arith, gone, has, entry));
      }

  pub without_entry-InStep :
      (t : TcpIoServer) → t.io_entry ≡ none → InStep (record s { io_server = some t }) m
  without_entry-InStep t gone = record {
    attended = h.attended;
    listening = λ t' member has entry. absurd (ground (arith, gone, has, entry));
  }

  -- Only the table of members matters of the module.
  pub stop-InStep : InStep s (record m { state = initialized })
  stop-InStep = record {
    attended = λ id e found.
        keep-Attended m (record m { state = initialized }) id e (h.attended id e found) refl;
    listening = h.listening;
  }

  -- A member is added under a descriptor that is not in use.
  pub add-InStep :
      (fd : ℤ) (object : ℕ)
      → contains fd m.io_members ≡ false
      → InStep s (record m { io_members = insert fd object m.io_members })
  add-InStep fd object free =
      let m' = record m { io_members = insert fd object m.io_members } in
      record {
        attended = λ id e found.
            let a = h.attended id e found in
            keep-Attended m m' id e a (
              ground (
                arith,
                free,
                a.is_open.registered,
                lookup-insert fd (pos a.is_open.fd) object m.io_members,
                int_beq_iff fd (pos a.is_open.fd),
                contains-lookup fd m.io_members,
              ));
        listening = λ t member has entry. ground (
          arith,
          free,
          h.listening t member has entry,
          lookup-insert fd member.fd object m.io_members,
          int_beq_iff fd member.fd,
          contains-lookup fd m.io_members,
        );
      }

module _ {V : Type 0} (s₀ : Service V) (m₀ : IoModule) where
  -- The same service and module under other names.
  pub moved-Follows :
      (s s' : Service V) (m m' : IoModule)
      → Follows s₀ m₀ s m
      → s ≡ s'
      → m ≡ m'
      → Follows s₀ m₀ s' m'
  moved-Follows s s' m m' h same_service same_module =
      subst (Follows s₀ m₀ s') same_module (subst (λ t. Follows s₀ m₀ t m) same_service h)
