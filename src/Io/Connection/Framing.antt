-- ===== src/Io/Connection/Framing.antt =====
-- What TcpIoConnection puts on the wire and takes from it: deric_rpc/io/src/tcp_io_connection.cpp,
-- `sendData` and `onReadAvailable`.
use deric_rpc.Prelude.{
  Option, ◌>>=◌, ℕ, ◌+◌, ◌-◌, ◌^◌, ◌<◌, ◌≤◌, ◌≡◌, ◌≢◌, refl, ap, ◌∙◌, [], ◌∷◌, ◌++◌, append-nil,
  some, arith, Bytes, length, take, drop, replicate, length-append, take-append, drop-append,
  take-length, drop-all, length-replicate, length-take-min, ℤ, pos, to_int_small, true, to_int,
  none,
}
use deric_rpc.Common.{started}
use deric_rpc.Os.{received, Kernel, lift_kernel}
use deric_rpc.Wire.Uint32.{set_uint32_to_chars, get_uint32-set_uint32}
use deric_rpc.Wire.Header.{
  tcp_header_magic, tcp_header_size, TcpHeader, serialer_to, deserialer_from,
}
use deric_rpc.Io.Connection.{
  Connection, IoClients, resize, store_at, fill_frame, send_data, take_body, take_header,
  on_read_available,
}

-- The bytes that stand for a message on a connection.
unfoldable pub frame : Bytes → Bytes
frame message = tcp_header_magic ∷ (set_uint32_to_chars (length message) ++ message)

pub length-resize : (n : ℕ) (buffer : Bytes) → length (resize n buffer) ≡ n
length-resize n buffer = omega (
  arith,
  length-append (take n buffer) (replicate (n - length buffer) 0),
  length-replicate {A = ℕ} (n - length buffer) 0,
  length-take-min n buffer,
)

-- A buffer that is overwritten to its end holds the bytes written, behind those kept in front.
store_at-end :
    (offset : ℕ) (stored buffer : Bytes)
    → length buffer ≡ offset + length stored
    → store_at offset stored buffer ≡ take offset buffer ++ stored
store_at-end offset stored buffer h =
    rw (drop-all (offset + length stored) buffer (omega arith)) (rw append-nil)

-- A header written into a buffer of the frame's size leaves the place behind it for the message.
header_then_message :
    (message buffer : Bytes) (h : TcpHeader)
    → length buffer ≡ tcp_header_size + length message
    → h.message_len ≡ length message
    → (headed : Bytes) × (serialer_to h (some buffer) ≡ some headed)
      × (store_at tcp_header_size message headed ≡ frame message)
unfolding serialer_to frame set_uint32_to_chars
header_then_message message (a ∷ b ∷ c ∷ d ∷ e ∷ rest) h l m = (
  tcp_header_magic ∷ (set_uint32_to_chars h.message_len ++ rest),
  refl,
  store_at-end tcp_header_size message
        (tcp_header_magic ∷ (set_uint32_to_chars h.message_len ++ rest)) (omega arith)
      ∙ rw m,
)
header_then_message message _ h l m = absurd (omega arith)

fill_frame-frame :
    (message : Bytes) (c : Connection)
    → tcp_header_size + length message < 2 ^ 31
    → fill_frame message (length message) c ≡ some (record c { send_buffer = frame message })
unfolding fill_frame
fill_frame-frame message c small =
    let buffer = resize (tcp_header_size + length message) c.send_buffer in
    let header : TcpHeader = record { magic = 0; message_len = length message } in
    let size : length buffer ≡ tcp_header_size + length message =
      length-resize (tcp_header_size + length message) c.send_buffer in
    let (headed, written, stored) = header_then_message message buffer header size refl in
    ground (arith, written, stored, take-length message)

module _ {W : Type 0} (os : Kernel W) where
  -- A message that a started connection with a descriptor gets for sending is passed to `send`
  -- whole, in one frame, whatever the send buffer held before. The message is not empty, and its
  -- frame is shorter than 2 ^ 31 bytes.
  pub send_data-frame :
      (message : Bytes) (fd : ℕ) (c : Connection) (w : W)
      → c.state ≡ started
      → c.socket_fd ≡ pos fd
      → message ≢ []
      → tcp_header_size + length message < 2 ^ 31
      → send_data os (some message) (pos (length message)) c w
        ≡ some (
          (os.send (pos fd) (frame message) w).0,
          record c { send_buffer = frame message },
          (os.send (pos fd) (frame message) w).1,
        )
  unfolding send_data
  send_data-frame [] fd c w st open_fd ne small = absurd (ne refl)
  send_data-frame (x ∷ xs) fd c w st open_fd ne small =
      ground (arith, fill_frame-frame (x ∷ xs) c small)

pub send_data_total :
    {W : Type 0} (os : Kernel W) (message : Bytes) (c : Connection) (w : W)
    → tcp_header_size + length message < 2 ^ 31
    → send_data os (some message) (to_int (length message)) c w ≢ none
unfolding send_data
send_data_total os [] c w small = ground arith
send_data_total os (x ∷ xs) c w small =
    ground (arith, to_int_small (length (x ∷ xs)) (omega arith), fill_frame-frame (x ∷ xs) c small)

-- What `recv` with MSG_WAITALL promises on a socket: where `stream` holds enough bytes it stores as
-- many as were asked for, and they leave the stream.
pub record Delivers {W : Type 0} (os : Kernel W) (fd : ℕ) (stream : W → Bytes) : Type 0 where
  pub stored :
      (n : ℕ) (w : W)
      → n ≤ length (stream w)
      → (os.recv (pos fd) n w).0 ≡ received (take n (stream w))
  pub consumed :
      (n : ℕ) (w : W) → n ≤ length (stream w) → stream (os.recv (pos fd) n w).1 ≡ drop n (stream w)

-- The world behind the two calls of `recv` that take a message off a stream.
abbrev pub taken : {W : Type 0} → Kernel W → ℕ → Bytes → W → W
taken os fd message w = (os.recv (pos fd) (length message) (os.recv (pos fd) tcp_header_size w).1).1

pub lift_kernel-Delivers :
    {V S : Type 0} {fd : ℕ} {stream : V → Bytes} (world : S → V) (set_world : V → S → S)
    → ((w : V) (s : S) → world (set_world w s) ≡ w)
    → (os : Kernel V) → Delivers os fd stream
    → Delivers (lift_kernel world set_world os) fd (λ s. stream (world s))
lift_kernel-Delivers {fd = fd} {stream = stream} world set_world law os d = record {
  stored = λ n s h. d.stored n (world s) h;
  consumed = λ n s h. ap stream (law (os.recv (pos fd) n (world s)).1 s) ∙ d.consumed n (world s) h;
}

abbrev header_bytes : Bytes → Bytes
header_bytes message = tcp_header_magic ∷ set_uint32_to_chars (length message)

header_of_frame :
    (message buffer : Bytes)
    → length message < 2 ^ 32
    → deserialer_from (some (store_at 0 (header_bytes message) buffer))
      ≡ some (record { magic = tcp_header_magic; message_len = length message })
unfolding deserialer_from set_uint32_to_chars
header_of_frame message buffer small =
    ground (arith, get_uint32-set_uint32 (length message) (drop 5 buffer) small)

-- Bytes stored over the whole of a buffer.
store_at-all :
    (stored buffer : Bytes) → length buffer ≡ length stored → store_at 0 stored buffer ≡ stored
store_at-all stored buffer h = store_at-end 0 stored buffer (omega arith)

module _ {W : Type 0} (os : Kernel W) (clients : IoClients W) where
  -- The handler's answer to a whole message that fills the receive buffer.
  abbrev pub handed : Bytes → ℕ → Connection → W → Option (ℤ × Connection × W)
  handed message id c w =
      clients.handle_data id (some message) (pos (length message))
        (record c { receive_buffer = message }) w

  take_body-message :
      (message : Bytes) (id : ℕ) (c : Connection) (w : W)
      → message ≢ []
      → length c.receive_buffer ≡ length message
      → length message < 2 ^ 31
      → take_body os clients (received message) id c w
        ≡ (do (_, c', w') ← handed message id c w; some (pos (length message), c', w'))
  unfolding take_body
  take_body-message [] id c w ne full small = absurd (ne refl)
  take_body-message (x ∷ xs) id c w ne full small =
      rw (store_at-all (x ∷ xs) c.receive_buffer full, to_int_small (length (x ∷ xs)) small)

  take_header-frame :
      (message : Bytes) (id : ℕ) (c : Connection) (w : W)
      → length message < 2 ^ 32
      → take_header os clients (received (header_bytes message)) id c w ≡ (
          let buffer = store_at 0 (header_bytes message) c.receive_buffer in
          let n = length message in
          take_body os clients
            (os.recv c.socket_fd n w).0
            id
            (record c { receive_buffer = resize n buffer })
            (os.recv c.socket_fd n w).1)
  unfolding take_header set_uint32_to_chars
  take_header-frame message id c w small =
      ground (arith, header_of_frame message c.receive_buffer small)

  -- A frame at the front of the stream is handed to the living client whole, with its length, and
  -- taken off the stream; the receive buffer is left empty. The connection is started on a
  -- descriptor from which `recv` delivers the stream, and the message is not empty and shorter
  -- than 2 ^ 31 bytes.
  pub on_read_available-frame :
      (message rest : Bytes) (fd id : ℕ) (stream : W → Bytes) (c : Connection) (w : W)
      → Delivers os fd stream
      → c.state ≡ started
      → c.socket_fd ≡ pos fd
      → c.io_client ≡ some id
      → clients.alive id w ≡ true
      → message ≢ []
      → length message < 2 ^ 31
      → stream w ≡ frame message ++ rest
      → let w₁ = (os.recv (pos fd) tcp_header_size w).1 in
        let w₂ = (os.recv (pos fd) (length message) w₁).1 in
        (on_read_available os clients c w ≡ (do
          (_, c', w') ← handed message id c w₂
          some (pos (length message), record c' { receive_buffer = [] }, w')))
        × (stream w₂ ≡ rest)
  unfolding on_read_available frame set_uint32_to_chars
  on_read_available-frame message rest fd id stream c w d st open_fd has_client live ne small
        front =
      let n = length message in
      let w₁ = (os.recv (pos fd) tcp_header_size w).1 in
      let c₁ = record c { receive_buffer = resize tcp_header_size c.receive_buffer } in
      let buffer = store_at 0 (header_bytes message) c₁.receive_buffer in
      let whole : tcp_header_size ≤ length (stream w) = omega (arith, ap length front) in
      let got₁ : (os.recv (pos fd) tcp_header_size w).0 ≡ received (header_bytes message) =
        d.stored tcp_header_size w whole ∙ ap (λ s. received (take tcp_header_size s)) front in
      let left₁ : stream w₁ ≡ message ++ rest =
        d.consumed tcp_header_size w whole ∙ ap (drop tcp_header_size) front in
      let behind : n ≤ length (stream w₁) =
        omega (arith, ap length left₁, length-append message rest) in
      let got₂ : (os.recv (pos fd) n w₁).0 ≡ received message =
        d.stored n w₁ behind
        ∙ ap (λ s. received (take n s)) left₁
        ∙ ap received (take-append message rest) in
      let left₂ : stream (os.recv (pos fd) n w₁).1 ≡ rest =
        d.consumed n w₁ behind ∙ ap (drop n) left₁ ∙ drop-append message rest in
      let body =
        take_body-message message id (record c { receive_buffer = resize n buffer })
          (os.recv (pos fd) n w₁).1 ne (length-resize n buffer) small in
      (ground (arith, got₁, got₂, take_header-frame message id c₁ w₁ (omega arith), body), left₂)
