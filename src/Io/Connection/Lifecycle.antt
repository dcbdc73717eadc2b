-- ===== src/Io/Connection/Lifecycle.antt =====
-- Starting and stopping a TcpIoConnection, and what it refuses:
-- deric_rpc/io/src/tcp_io_connection.cpp.
use deric_rpc.Prelude.{
  ℕ, suc, ◌≡◌, ◌⊎◌, Option, none, some, arith, Bytes, ℤ, pos, negsuc, is_neg, is_nonpos, failure,
  success, true, false,
}
use deric_rpc.Common.{created, started, is_started}
use deric_rpc.Os.{Kernel}
use deric_rpc.Io.Connection.{
  Connection, IoClients, client_mode, new_connection, set_io_client, set_io_fd, send_data, start,
  start_to, stop,
}

module _ {W : Type 0} (os : Kernel W) where
  -- A connection that is not started or has no socket, a null pointer and a length that is not
  -- positive: each makes `sendData` fail, with nothing sent and nothing changed.
  pub send_data_refused :
      (message : Option Bytes) (len : ℤ) (c : Connection) (w : W)
      → (is_started c.state ≡ false)
        ⊎ (is_neg c.socket_fd ≡ true)
        ⊎ (message ≡ none)
        ⊎ (is_nonpos len ≡ true)
      → send_data os message len c w ≡ some (failure, c, w)
  unfolding send_data
  send_data_refused none len c w h = ground arith
  send_data_refused (some m) (negsuc n) c w h = ground arith
  send_data_refused (some m) (pos n) c w h = ground arith

  -- A connection of the server whose client lives is stopped without a call of `close`: what
  -- `start` was given, an accepted descriptor above 0, is forgotten and stays open.
  pub stop-start_leaks :
      (clients : IoClients W) (id n : ℕ) (w : W)
      → clients.alive id w ≡ true
      → let c = set_io_client (some id) (set_io_fd (pos (suc n)) new_connection) in
        stop os (start os clients c w).1 w ≡ (success, set_io_client (some id) new_connection, w)
  unfolding stop start set_io_client set_io_fd new_connection
  stop-start_leaks clients id n w live = ground arith

  -- `start(Ip, port)` either reports success with the connection started, on a descriptor that is
  -- not negative and in the mode of a client, or reports a failure and leaves the state as it was.
  pub start_to_outcome :
      (clients : IoClients W) (ip : Bytes) (port : ℤ) (c : Connection) (w : W)
      → let (res, c', w') = start_to os clients ip port c w in
        ((res ≡ success)
          × (c.state ≡ created)
          × (c'.state ≡ started)
          × (c'.io_mode ≡ client_mode)
          × (is_neg c'.socket_fd ≡ false))
        ⊎ ((res ≡ failure) × (c'.state ≡ c.state) × (c'.io_mode ≡ c.io_mode))
  unfolding start_to
  start_to_outcome clients ip port c w = ground arith

  pub stop-client :
      (n : ℕ) (c : Connection) (w : W)
      → c.state ≡ started
      → c.io_mode ≡ client_mode
      → c.socket_fd ≡ pos (suc n)
      → stop os c w
        ≡ (success, record c { socket_fd = failure; state = created }, os.close (pos (suc n)) w)
  unfolding stop
  stop-client n c w st mode fd = ground arith

  -- A connection that `start(Ip, port)` has opened is closed by `stop`, by one call of `close` on
  -- its descriptor if that is above 0, and can be started again.
  pub stop-start_to_closes :
      (clients : IoClients W) (ip : Bytes) (port : ℤ) (n : ℕ) (c : Connection) (w : W)
      → is_neg (start_to os clients ip port c w).0 ≡ false
      → (start_to os clients ip port c w).1.socket_fd ≡ pos (suc n)
      → let (_, c₁, w₁) = start_to os clients ip port c w in
        let (r, c₂, w₂) = stop os c₁ w₁ in
        (r ≡ success)
        × (w₂ ≡ os.close (pos (suc n)) w₁)
        × (c₂.state ≡ created)
        × (c₂.socket_fd ≡ failure)
  stop-start_to_closes clients ip port n c w ok fd =
      let (_, c₁, w₁) = start_to os clients ip port c w in
      ground (arith, start_to_outcome clients ip port c w, stop-client n c₁ w₁)
