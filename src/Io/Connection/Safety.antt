-- ===== src/Io/Connection/Safety.antt =====
-- That TcpIoConnection stays inside its buffers, and what it does with input of other shapes:
-- deric_rpc/io/src/tcp_io_connection.cpp, `sendData` and `onReadAvailable`.
use deric_rpc.Prelude.{
  to_int_small, ◌^◌, ◌<◌, ◌>>=◌, ℤ, ℕ, ◌+◌, ◌≤◌, ◌≡◌, ◌≢◌, refl, ap, ◌∙◌, [], ◌∷◌, ◌++◌, none, some,
  arith, Bytes, length, take, drop, length-append, length-drop, pos, success, true,
}
use deric_rpc.Common.{started, close_event}
use deric_rpc.Os.{Recv, failed, received, Kernel}
use deric_rpc.Wire.Uint32.{get_uint32_from_chars, set_uint32_to_chars, get_uint32-set_uint32}
use deric_rpc.Wire.Header.{tcp_header_magic, tcp_header_size, TcpHeader, deserialer_from}
use deric_rpc.Io.Connection.Framing.{Delivers, frame, length-resize}
use deric_rpc.Io.Connection.{
  Connection, IoClients, resize, store_at, tell_closed, take_body, take_header, read_message,
  on_read_available,
}

length-store_at-le : (stored buffer : Bytes) → length buffer ≤ length (store_at 0 stored buffer)
length-store_at-le stored buffer = omega (
  arith,
  length-append stored (drop (0 + length stored) buffer),
  length-drop (0 + length stored) buffer,
)

deserialer_from_total :
    (buffer : Bytes)
    → tcp_header_size ≤ length buffer
    → (h : TcpHeader) × (deserialer_from (some buffer) ≡ some h)
unfolding deserialer_from get_uint32_from_chars
deserialer_from_total (a ∷ b ∷ c ∷ d ∷ e ∷ rest) h = (_, refl)
deserialer_from_total _ h = absurd (omega arith)

-- `recv` gives no more than so many bytes at once.
abbrev pub GivesAtMost : {W : Type 0} → Kernel W → ℕ → Type 0
GivesAtMost {W} os size =
    (fd : ℤ) (n : ℕ) (w : W) (bytes : Bytes)
    → (os.recv fd n w).0 ≡ received bytes
    → length bytes ≤ size

-- Where the property `P` of a connection and its world holds, the handlers of the client `id` come to
-- a result on a message of no more than `size` bytes and on the end of the connection; `recv` and the
-- receive buffer keep the property.
pub record Returns {W : Type 0} (os : Kernel W) (clients : IoClients W) (size : ℕ)
    (P : Connection → W → Type 0) (id : ℕ) : Type 0 where
  pub recvs : (fd : ℤ) (n : ℕ) (c : Connection) (w : W) → P c w → P c (os.recv fd n w).1
  pub buffers : (b : Bytes) (c : Connection) (w : W) → P c w → P (record c { receive_buffer = b }) w
  pub event : (c : Connection) (w : W) → P c w → clients.handle_event id close_event c w ≢ none
  pub message :
      (bytes : Bytes) (n : ℕ) (c : Connection) (w : W)
      → P c w
      → n ≤ size
      → clients.handle_data id (some bytes) (pos n) c w ≢ none

module _ {W : Type 0} (os : Kernel W) (clients : IoClients W) (size : ℕ)
    (P : Connection → W → Type 0) (id : ℕ) (law : Returns os clients size P id)
    (small : size < 2 ^ 31) (most : GivesAtMost os size) where
  tell_closed_total : (c : Connection) (w : W) → P c w → tell_closed os clients id c w ≢ none
  unfolding tell_closed
  tell_closed_total c w h = ground (arith, law.event c w h)

  take_body_total :
      (r : Recv) (c : Connection) (w : W)
      → ((bytes : Bytes) → r ≡ received bytes → length bytes ≤ size)
      → P c w
      → take_body os clients r id c w ≢ none
  unfolding take_body
  take_body_total (failed n) c w fits h = ground arith
  take_body_total (received []) c w fits h = tell_closed_total c w h
  take_body_total (received (b ∷ bs)) c w fits h =
      let buffer = store_at 0 (b ∷ bs) c.receive_buffer in
      let c₁ = record c { receive_buffer = buffer } in
      let n = length (b ∷ bs) in
      let fit = fits (b ∷ bs) refl in
      ground (
        arith,
        to_int_small n (omega arith),
        law.message buffer n c₁ w (law.buffers buffer c w h) fit,
      )

  take_header_total :
      (r : Recv) (c : Connection) (w : W)
      → P c w
      → tcp_header_size ≤ length c.receive_buffer
      → take_header os clients r id c w ≢ none
  unfolding take_header
  take_header_total (failed n) c w h room = ground arith
  take_header_total (received []) c w h room = tell_closed_total c w h
  take_header_total (received (b ∷ bs)) c w h room =
      let buffer = store_at 0 (b ∷ bs) c.receive_buffer in
      let (header, e) =
        deserialer_from_total buffer
          (omega (arith, length-store_at-le (b ∷ bs) c.receive_buffer)) in
      let body = resize header.message_len buffer in
      let c₂ = record c { receive_buffer = body } in
      let (r, w') = os.recv c.socket_fd header.message_len w in
      ground (
        arith,
        e,
        take_body_total r c₂ w' (λ bytes got. most c.socket_fd header.message_len w bytes got)
            (law.recvs c.socket_fd header.message_len c₂ w (law.buffers body c w h)),
      )

  read_message_total : (c : Connection) (w : W) → P c w → read_message os clients id c w ≢ none
  unfolding read_message
  read_message_total c w h =
      let buffer = resize tcp_header_size c.receive_buffer in
      let c₁ = record c { receive_buffer = buffer } in
      let (r, w₁) = os.recv c.socket_fd tcp_header_size w in
      ground (
        arith,
        take_header_total r c₁ w₁
            (law.recvs c.socket_fd tcp_header_size c₁ w (law.buffers buffer c w h))
            (omega (arith, length-resize tcp_header_size c.receive_buffer)),
      )

  pub on_read_available_total :
      (c : Connection) (w : W)
      → c.io_client ≡ some id
      → P c w
      → on_read_available os clients c w ≢ none
  unfolding on_read_available
  on_read_available_total c w client h = ground (arith, client, read_message_total c w h)

module _ {W : Type 0} (os : Kernel W) (clients : IoClients W) where
  take_header-empty :
      (client : ℕ) (c : Connection) (w : W)
      → (os.recv c.socket_fd 0 w).0 ≡ received []
      → take_header os clients (received (tcp_header_magic ∷ set_uint32_to_chars 0)) client c w ≡ (
          let buffer = store_at 0 (tcp_header_magic ∷ set_uint32_to_chars 0) c.receive_buffer in
          let c₁ = record c { receive_buffer = resize 0 buffer } in
          tell_closed os clients client c₁ (os.recv c.socket_fd 0 w).1)
  unfolding take_header set_uint32_to_chars deserialer_from take_body
  take_header-empty client c w e =
      ground (arith, e, get_uint32-set_uint32 0 (drop 5 c.receive_buffer) (omega arith))

  -- A frame that announces a message of no bytes, at the front of the stream of a started
  -- connection whose client lives, is taken for the end of the connection: the client is told that
  -- the connection closes, and `onReadAvailable` returns 0.
  pub on_read_available-empty_frame :
      (rest : Bytes) (fd id : ℕ) (stream : W → Bytes) (c : Connection) (w : W)
      → Delivers os fd stream
      → c.state ≡ started
      → c.socket_fd ≡ pos fd
      → c.io_client ≡ some id
      → clients.alive id w ≡ true
      → stream w ≡ frame [] ++ rest
      → let w₁ = (os.recv (pos fd) tcp_header_size w).1 in
        let w₂ = (os.recv (pos fd) 0 w₁).1 in
        on_read_available os clients c w ≡ (do
          (_, c', w') ← clients.handle_event id close_event (record c { receive_buffer = [] }) w₂
          some (success, record c' { receive_buffer = [] }, w'))
  unfolding on_read_available read_message tell_closed frame set_uint32_to_chars
  on_read_available-empty_frame rest fd id stream c w d st open_fd has_client live front =
      let w₁ = (os.recv (pos fd) tcp_header_size w).1 in
      let c₁ = record c { receive_buffer = resize tcp_header_size c.receive_buffer } in
      let whole : tcp_header_size ≤ length (stream w) = omega (arith, ap length front) in
      let got₁ : (os.recv (pos fd) tcp_header_size w).0
          ≡ received (tcp_header_magic ∷ set_uint32_to_chars 0) =
        d.stored tcp_header_size w whole ∙ ap (λ s. received (take tcp_header_size s)) front in
      let got₂ : (os.recv (pos fd) 0 w₁).0 ≡ received [] = d.stored 0 w₁ (omega arith) in
      let got : (os.recv c₁.socket_fd 0 w₁).0 ≡ received [] = rw open_fd got₂ in
      ground (arith, got₁, take_header-empty id c₁ w₁ got)
