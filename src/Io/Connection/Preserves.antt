-- ===== src/Io/Connection/Preserves.antt =====
-- What a connection leaves as it was when it is called by the event thread:
-- deric_rpc/io/src/tcp_io_connection.cpp, `onReadAvailable` and `onIoError`.
use deric_rpc.Prelude.{
  ℕ, ℤ, Bytes, [], ◌∷◌, ◌≡◌, subst, ◌⊎◌, to_int, length, Option, some, arith, inl, inr,
  Option-cases,
}
use deric_rpc.Common.{IoMemberErrorAction, keep, close_event, IoMemberError, epoll_failed}
use deric_rpc.Os.{Kernel, Recv, received, failed}
use deric_rpc.Wire.Header.{tcp_header_size, deserialer_from}
use deric_rpc.Io.Connection.{
  Connection, IoClients, tell_closed, take_body, take_header, read_message, on_read_available,
  on_io_error, resize, store_at, send_data, fill_frame,
}

-- `recv`, the receive buffer and the handlers of the client `id` keep a property of the connection
-- and the world.
pub record Keeps {W : Type 0} (os : Kernel W) (clients : IoClients W) (P : Connection → W → Type 0)
    (id : ℕ) : Type 0 where
  pub recvs : (fd : ℤ) (n : ℕ) (c : Connection) (w : W) → P c w → P c (os.recv fd n w).1
  pub buffers : (b : Bytes) (c : Connection) (w : W) → P c w → P (record c { receive_buffer = b }) w
  pub events :
      (res : ℤ) (c c' : Connection) (w w' : W)
      → P c w
      → clients.handle_event id close_event c w ≡ some (res, c', w')
      → P c' w'
  pub messages :
      (bytes : Option Bytes) (len res : ℤ) (c c' : Connection) (w w' : W)
      → P c w
      → clients.handle_data id bytes len c w ≡ some (res, c', w')
      → P c' w'

module _ {W : Type 0} (os : Kernel W) (clients : IoClients W) (P : Connection → W → Type 0) (id : ℕ)
    (k : Keeps os clients P id) where
  along : (c c' : Connection) (w w' : W) → P c w → (c ≡ c') × (w ≡ w') → P c' w'
  along c c' w w' h (same_c, same_w) = subst (P c') same_w (subst (λ d. P d w) same_c h)

  tell_closed-Keeps :
      (res : ℤ) (c c' : Connection) (w w' : W)
      → P c w
      → tell_closed os clients id c w ≡ some (res, c', w')
      → P c' w'
  unfolding tell_closed
  tell_closed-Keeps res c c' w w' h e =
      elim (Option-cases (clients.handle_event id close_event c w)) [
        | inl gone ↦ absurd (ground (arith, e, gone))
        | inr ((r, c₁, w₁), told) ↦
            along c₁ c' w₁ w' (k.events r c c₁ w w₁ h told) (ground (arith, e, told))
      ]

  take_body-Keeps :
      (r : Recv) (res : ℤ) (c c' : Connection) (w w' : W)
      → P c w
      → take_body os clients r id c w ≡ some (res, c', w')
      → P c' w'
  unfolding take_body
  take_body-Keeps (failed n) res c c' w w' h e = along c c' w w' h (ground (arith, e))
  take_body-Keeps (received []) res c c' w w' h e = tell_closed-Keeps res c c' w w' h e
  take_body-Keeps (received (b ∷ bs)) res c c' w w' h e =
      let buffer = store_at 0 (b ∷ bs) c.receive_buffer in
      let n = to_int (length (b ∷ bs)) in
      let c₁ = record c { receive_buffer = buffer } in
      elim (Option-cases (clients.handle_data id (some buffer) n c₁ w)) [
        | inl gone ↦ absurd (ground (arith, e, gone))
        | inr ((r, c₂, w₂), handled) ↦
            along c₂ c' w₂ w'
              (k.messages (some buffer) n r c₁ c₂ w w₂ (k.buffers buffer c w h) handled)
              (ground (arith, e, handled))
      ]

  take_header-Keeps :
      (r : Recv) (res : ℤ) (c c' : Connection) (w w' : W)
      → P c w
      → take_header os clients r id c w ≡ some (res, c', w')
      → P c' w'
  unfolding take_header
  take_header-Keeps (failed n) res c c' w w' h e = along c c' w w' h (ground (arith, e))
  take_header-Keeps (received []) res c c' w w' h e = tell_closed-Keeps res c c' w w' h e
  take_header-Keeps (received (b ∷ bs)) res c c' w w' h e =
      let buffer = store_at 0 (b ∷ bs) c.receive_buffer in
      elim (Option-cases (deserialer_from (some buffer))) [
        | inl short ↦ absurd (ground (arith, e, short))
        | inr (header, read) ↦
            let body = resize header.message_len buffer in
            let c₂ = record c { receive_buffer = body } in
            let (r, w₁) = os.recv c.socket_fd header.message_len w in
            take_body-Keeps r res c₂ c' w₁ w'
              (k.recvs c.socket_fd header.message_len c₂ w (k.buffers body c w h))
              (ground (arith, e, read))
      ]

  read_message-Keeps :
      (res : ℤ) (c c' : Connection) (w w' : W)
      → P c w
      → read_message os clients id c w ≡ some (res, c', w')
      → P c' w'
  unfolding read_message
  read_message-Keeps res c c' w w' h e =
      let buffer = resize tcp_header_size c.receive_buffer in
      let c₁ = record c { receive_buffer = buffer } in
      let (r, w₁) = os.recv c.socket_fd tcp_header_size w in
      elim (Option-cases (take_header os clients r id c₁ w₁)) [
        | inl gone ↦ absurd (ground (arith, e, gone))
        | inr ((n, c₂, w₂), taken) ↦
            let kept =
              take_header-Keeps r n c₁ c₂ w₁ w₂
                (k.recvs c.socket_fd tcp_header_size c₁ w (k.buffers buffer c w h)) taken in
            along (record c₂ { receive_buffer = [] }) c' w₂ w' (k.buffers [] c₂ w₂ kept)
              (ground (arith, e, taken))
      ]

  -- The guards of `onReadAvailable`: the call does nothing, or it reads for the client.
  on_read_available-cases :
      (res : ℤ) (c c' : Connection) (w w' : W)
      → c.io_client ≡ some id
      → on_read_available os clients c w ≡ some (res, c', w')
      → ((c ≡ c') × (w ≡ w')) ⊎ (read_message os clients id c w ≡ some (res, c', w'))
  unfolding on_read_available
  on_read_available-cases res c c' w w' client e = ground (arith, e, client)

  pub on_read_available-Keeps :
      (res : ℤ) (c c' : Connection) (w w' : W)
      → c.io_client ≡ some id
      → P c w
      → on_read_available os clients c w ≡ some (res, c', w')
      → P c' w'
  on_read_available-Keeps res c c' w w' client h e =
      elim (on_read_available-cases res c c' w w' client e) [
        | inl same ↦ along c c' w w' h same
        | inr read ↦ read_message-Keeps res c c' w w' h read
      ]

  pub on_io_error-Keeps :
      (action : IoMemberErrorAction) (error : IoMemberError) (c c' : Connection) (w w' : W)
      → c.io_client ≡ some id
      → P c w
      → on_io_error os clients error c w ≡ some (action, c', w')
      → P c' w'
  unfolding on_io_error
  on_io_error-Keeps action epoll_failed c c' w w' client h e =
      elim (Option-cases (clients.handle_event id close_event c w)) [
        | inl gone ↦ along c c' w w' h (ground (arith, e, gone, client))
        | inr ((r, c₁, w₁), told) ↦
            let ended : ((c ≡ c') × (w ≡ w')) ⊎ ((c₁ ≡ c') × (w₁ ≡ w')) =
              ground (arith, e, told, client) in
            elim ended [
              | inl same ↦ along c c' w w' h same
              | inr same ↦ along c₁ c' w₁ w' (k.events r c c₁ w w₁ h told) same
            ]
      ]

module _ {W : Type 0} (os : Kernel W) (clients : IoClients W) where
  -- No error makes a connection ask for its descriptor to be closed.
  pub on_io_error-keep :
      (action : IoMemberErrorAction) (error : IoMemberError) (c c' : Connection) (w w' : W)
      → on_io_error os clients error c w ≡ some (action, c', w')
      → action ≡ keep
  unfolding on_io_error
  on_io_error-keep action epoll_failed c c' w w' e = ground (arith, e)

module _ {V : Type 0} (os : Kernel V) where
  pub send_data-io_client :
      (bytes : Option Bytes) (len res : ℤ) (c c' : Connection) (w w' : V)
      → send_data os bytes len c w ≡ some (res, c', w')
      → c'.io_client ≡ c.io_client
  unfolding send_data fill_frame
  send_data-io_client bytes len res c c' w w' e = ground (arith, e)

  pub send_data-socket :
      (bytes : Option Bytes) (len res : ℤ) (c c' : Connection) (w w' : V)
      → send_data os bytes len c w ≡ some (res, c', w')
      → (c'.state ≡ c.state) × (c'.socket_fd ≡ c.socket_fd)
  unfolding send_data fill_frame
  send_data-socket bytes len res c c' w w' e = ground (arith, e)

  -- Where something is sent, it is what the send buffer holds then.
  pub send_data-world :
      (bytes : Option Bytes) (len res : ℤ) (c c' : Connection) (w w' : V)
      → send_data os bytes len c w ≡ some (res, c', w')
      → (w ≡ w') ⊎ ((os.send c'.socket_fd c'.send_buffer w).1 ≡ w')
  unfolding send_data fill_frame
  send_data-world bytes len res c c' w w' e = ground (arith, e)
