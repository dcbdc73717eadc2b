-- ===== src/Tests/Hosts.antt =====
-- A service and a client on two machines: a whole call, several in turn, and the end of a client.
use deric_rpc.Prelude.{
  ℕ, ℤ, pos, Bytes, [], ◌∷◌, ◌++◌, ◌≡◌, refl, true, false, none, some, arith, lookup, contains,
  int_equality, nat_equality, bytes_equality, int_beq, nat_beq, if◌then◌else◌,
}
use deric_rpc.Common.{started}
use deric_rpc.Wire.Uint32.{set_uint32_to_chars}
use deric_rpc.Io.Connection.Framing.{frame}
use deric_rpc.Io.Events.{IoModule}
use deric_rpc.Io.Events.Loop.{EpollEvent, IsReadable, Pending, handle_event}
use deric_rpc.Serial.{serial_message_meta, serial_message_data, get_message_data}
use deric_rpc.Function.{exec_result}
use deric_rpc.Server.Client.{ClientEntry}
use deric_rpc.Server.Service.{Service}
use deric_rpc.Server
use deric_rpc.Server.Host.{Host, host_members}
use deric_rpc.Client.Impl.{ClientImpl}
use deric_rpc.Client
use deric_rpc.Client.Entry.{request}
use deric_rpc.Client.Host.{ClientHost, client_members}
use deric_rpc.Rpc.Messages.{reply_with}
use deric_rpc.Rpc.Round.{IsServing}
use deric_rpc.Rpc.Delivery.{IsCalling}
use deric_rpc.Rpc.Remote.{Packs, Provides, remote_call}
use deric_rpc.Rpc.Closing.{handle_event-close}
use deric_rpc.Rpc.HangUp.{handle_event-hang_up}
use deric_rpc.Tests.Calls.{helper}
use deric_rpc.Tests.Clients.{machine_service}
use deric_rpc.Tests.Events.{events}
use deric_rpc.Tests.Frames.{connection}
use deric_rpc.Tests.Machine.{Machine, machine, stream, machine-Delivers, online}
use deric_rpc.Tests.Packer.{packer, sized_strings, sized_ints-RoundTrips, sized_strings-RoundTrips}

abbrev pub name : Bytes
name = b'f' ∷ []

abbrev pub word : Bytes
word = b'a' ∷ []

abbrev pub shout : Bytes → Machine → Bytes × Machine
shout word w = (b'!' ∷ word, w)

pub packs : Packs packer sized_strings sized_strings
packs = record {
  ints = sized_ints-RoundTrips;
  strings = sized_strings-RoundTrips;
  arguments = sized_strings-RoundTrips;
  results = sized_strings-RoundTrips;
}

abbrev pub entry : ClientEntry
entry = record {
  client_id = 1;
  io_connection = some (record { object = 2; connection = connection });
}

abbrev pub service : Service Machine
service = record machine_service {
  clients = (1, entry) ∷ [];
  functions = (name, exec_result packer sized_strings sized_strings helper shout) ∷ [];
}

abbrev pub one_client : IoModule
one_client = record events { state = started; epoll_fd = pos 6; io_members = (pos 5, 2) ∷ [] }

abbrev pub host : Bytes → Host Machine
host incoming = record {
  world = record online { incoming = incoming };
  io_module = one_client;
  service = service;
  client_index = 1;
}

abbrev pub input : EpollEvent
input = record { fd = pos 5; readable = true; error = false; hang_up = false }

pub input-IsReadable : IsReadable input (pos 5)
input-IsReadable = record { on_fd = refl; input = refl; no_error = refl; no_hang_up = refl }

abbrev pub pending : Pending
pending = record { wakeup_flag = b'1'; close_fds = [] }

pub serving : (incoming : Bytes) → IsServing one_client (host incoming) 5 1 entry connection
unfolding lookup
serving incoming = record {
  unlocked = refl;
  apart = refl;
  registered = refl;
  listed = refl;
  numbered = refl;
  connected = refl;
  up = refl;
  opened = refl;
  client = refl;
}

pub provides :
    (incoming : Bytes)
    → Provides packer sized_strings sized_strings shout name (host incoming).service
unfolding lookup
provides incoming = record {
  helper = helper;
  up = refl;
  serialer = refl;
  helped = refl;
  found = refl;
}

abbrev pub impl : ClientImpl
impl = record {
  io_connection = some (record { object = 2; connection = connection });
  has_callback = true;
}

abbrev pub client_host : Bytes → ClientHost Machine
client_host incoming = record {
  world = record online { incoming = incoming };
  client = record {
    has_serialer = true;
    client_impl = some impl;
    service_book = [];
    waiting_items = (pos 7, []) ∷ [];
  };
  notified = [];
  dropped = [];
}

pub calling : (incoming : Bytes) → IsCalling one_client (client_host incoming) 5 1 2 impl connection
unfolding lookup
calling incoming = record {
  unlocked = refl;
  apart = refl;
  registered = refl;
  serialer = refl;
  has_impl = refl;
  callback = refl;
  connected = refl;
  up = refl;
  opened = refl;
  client = refl;
}

abbrev pub asked : Bytes
asked = request packer sized_strings name (pos 7) word

abbrev pub answered : Bytes
answered = reply_with packer sized_strings name (pos 7) (b'!' ∷ word)

remote_call_example :
    let σ = host (frame asked ++ []) in
    let τ = client_host (frame answered ++ []) in
    (σ' : Host Machine) × (τ' : ClientHost Machine) × (handle_event
        (Server.Host.kernel machine)
        (host_members packer machine)
        input
        pending
        one_client
        σ
      ≡ some (pending, one_client, σ'))
    × (σ'.world ≡ record online { sent = frame answered })
    × (handle_event
          (Client.Host.kernel machine)
          (client_members packer machine)
          input
          pending
          one_client
          τ
        ≡ some (pending, one_client, τ'))
    × (τ'.notified ≡ pos 7 ∷ [])
    × (lookup (pos 7) τ'.client.waiting_items ≡ some answered)
    × (get_message_data packer sized_strings answered ≡ b'!' ∷ word)
unfolding contains request serial_message_meta serial_message_data frame set_uint32_to_chars
remote_call_example =
    remote_call packer machine machine sized_strings sized_strings shout name (pos 7) word stream 5
      1 [] entry connection input pending one_client (host (frame asked ++ [])) stream 5 1 2 [] impl
      connection input pending one_client (client_host (frame answered ++ [])) (machine-Delivers 5)
      (machine-Delivers 5) packs (provides (frame asked ++ [])) (serving (frame asked ++ []))
      (calling (frame answered ++ [])) input-IsReadable input-IsReadable refl (omega arith)
      (omega arith) refl refl

handle_event-close_example :
    let σ = host [] in
    (m' : IoModule) × (σ' : Host Machine) × (handle_event
        (Server.Host.kernel machine)
        (host_members packer machine)
        input
        pending
        one_client
        σ
      ≡ some (pending, m', σ'))
    × (σ'.world ≡ online)
    × (m'.members_locked ≡ false)
    × ((other : ℤ)
        → lookup other m'.io_members
          ≡ (if int_beq (pos 5) other then none else lookup other one_client.io_members))
    × ((other : ℕ)
        → lookup other σ'.service.clients
          ≡ (if nat_beq 1 other then none else lookup other service.clients))
handle_event-close_example =
    handle_event-close packer machine 4 1 6 entry connection input pending one_client (host [])
      (serving []) input-IsReadable refl refl refl refl

-- The client has hung up, with a request left in its stream.
abbrev hung_up : EpollEvent
hung_up = record input { hang_up = true }

handle_event-hang_up_example :
    let σ = host (frame asked ++ []) in
    (m' : IoModule) × (σ' : Host Machine) × (handle_event
        (Server.Host.kernel machine)
        (host_members packer machine)
        hung_up
        pending
        one_client
        σ
      ≡ some (pending, m', σ'))
    × (σ'.world ≡ record online { incoming = frame asked ++ [] })
    × (m'.members_locked ≡ false)
    × ((other : ℤ)
        → lookup other m'.io_members
          ≡ (if int_beq (pos 5) other then none else lookup other one_client.io_members))
    × ((other : ℕ)
        → lookup other σ'.service.clients
          ≡ (if nat_beq 1 other then none else lookup other service.clients))
handle_event-hang_up_example =
    handle_event-hang_up packer machine 4 1 6 entry connection hung_up pending one_client
      (host (frame asked ++ [])) (serving (frame asked ++ [])) refl refl refl refl refl
