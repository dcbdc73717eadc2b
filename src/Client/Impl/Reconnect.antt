-- ===== src/Client/Impl/Reconnect.antt =====
-- A client that disconnects and connects again: deric_rpc/rpc/client/src/rpc_client_impl.cpp, with
-- deric_rpc/io/src/io_module.cpp.
use deric_rpc.Prelude.{
  ℕ, suc, ℤ, pos, is_neg, success, Bytes, ◌≡◌, refl, true, false, Option, none, some, arith,
  contains, int_equality,
}
use deric_rpc.Common.{started, returns}
use deric_rpc.Os.{Kernel, epoll_add}
use deric_rpc.Io.Connection.{
  Connection, IoClients, client_mode, new_connection, set_io_client, start_to, get_fd,
}
use deric_rpc.Io.Connection.Lifecycle.{stop-client}
use deric_rpc.Io.Events.{IoModule, IoMember, add_io_member, modify_epoll_event, wakeup_module}
use deric_rpc.Io.Events.Members.{
  Blocks, with_member, add_io_member_again, add_io_member_free, contains-insert_self,
}
use deric_rpc.Client.Impl.{
  ClientConnectionConfig, ClientImpl, set_io_connection, disconnect, connect,
}

module _ {W : Type 0} (os : Kernel W) (clients : IoClients W) (stoi : Bytes → Option ℤ)
    (config : ClientConnectionConfig) (self : ℕ) where
  -- The client lives, the port is a number, `socket` gives the descriptor `fd`, and `connect`
  -- succeeds on it.
  pub record Reaches (port fd : ℕ) (w : W) : Type 0 where
    pub living : clients.alive self w ≡ true
    pub numbered : stoi config.service_port ≡ some (pos port)
    pub opened : (os.socket w).0 ≡ pos fd
    pub accepted :
        is_neg (os.connect (pos fd) config.service_ip (pos port) (os.socket w).1).0 ≡ false

  -- The connection that `connect` makes then, and the world behind it.
  abbrev pub reached : ℕ → ℕ → W → Connection × W
  reached port fd w = (
    record (set_io_client (some self) new_connection) {
      socket_fd = pos fd;
      io_mode = client_mode;
      state = started;
    },
    (os.connect (pos fd) config.service_ip (pos port) (os.socket w).1).1,
  )

  start_to-reached :
      (port fd : ℕ) (w : W)
      → Reaches port fd w
      → start_to os clients config.service_ip
          (pos port)
          (set_io_client (some self) new_connection)
          w
        ≡ (success, (reached port fd w).0, (reached port fd w).1)
  unfolding start_to set_io_client new_connection
  start_to-reached port fd w r = ground (arith, r.living, r.opened, r.accepted)

  connect-reached :
      (port fd object : ℕ) (c : ClientImpl) (m m' : IoModule) (w w' : W) (res : ℤ)
      → Reaches port fd w
      → add_io_member os (some (record { object = object; fd = pos fd })) m (reached port fd w).1
        ≡ some (res, m', w')
      → is_neg res ≡ false
      → connect os clients stoi config self object c m w
        ≡ returns (
          success,
          set_io_connection (record { object = object; connection = (reached port fd w).0 }) c,
          m',
          w',
        )
  unfolding connect get_fd
  connect-reached port fd object c m m' w w' res r added ok =
      ground (arith, r.numbered, start_to-reached port fd w r, added, ok)

  abbrev pub member_at : ℕ → ℕ → IoMember
  member_at object fd = record { object = object; fd = pos fd }

  -- The world behind the registration of the new connection.
  abbrev pub registered : ℕ → ℕ → ℕ → IoModule → W → W
  registered port fd object m w =
      wakeup_module os (with_member os (member_at object fd) m)
        (modify_epoll_event os epoll_add (pos fd) m (reached port fd w).1).1

  disconnect-reached :
      (port fd object : ℕ) (c : ClientImpl) (w w₁ : W)
      → disconnect os
          (set_io_connection
            (record { object = object; connection = (reached port (suc fd) w).0 })
            c)
          w₁
        ≡ (success, record c { io_connection = none }, os.close (pos (suc fd)) w₁)
  unfolding disconnect set_io_connection
  disconnect-reached port fd object c w w₁ =
      ground (arith, stop-client os fd (reached port (suc fd) w).0 w₁ refl refl refl)

  -- A client that connects, disconnects and connects again blocks the event module, where the system
  -- gives the descriptor that was closed, one above 0, a second time: each of the three calls reports
  -- success, the disconnection closes the descriptor, and yet no thread gets past the mutex of the
  -- members any more. At the start that mutex is free and the descriptor is not registered.
  pub reconnect-Blocks :
      (port fd object₁ object₂ : ℕ) (c : ClientImpl) (m : IoModule) (w : W)
      → m.members_locked ≡ false
      → contains (pos (suc fd)) m.io_members ≡ false
      → Reaches port (suc fd) w
      → is_neg (modify_epoll_event os epoll_add (pos (suc fd)) m (reached port (suc fd) w).1).0
        ≡ false
      → Reaches port (suc fd) (os.close (pos (suc fd)) (registered port (suc fd) object₁ m w))
      → (c₁ c₂ c₃ : ClientImpl) × (m₁ m₃ : IoModule) × (w₁ w₂ w₃ : W) × (connect os clients stoi
            config self object₁ c m w
          ≡ returns (success, c₁, m₁, w₁))
        × (disconnect os c₁ w₁ ≡ (success, c₂, w₂))
        × (w₂ ≡ os.close (pos (suc fd)) w₁)
        × (connect os clients stoi config self object₂ c₂ m₁ w₂ ≡ returns (success, c₃, m₃, w₃))
        × Blocks os m₃
  reconnect-Blocks port fd object₁ object₂ c m w free fresh first added second =
      let member₁ = member_at object₁ (suc fd) in
      let m₁ = with_member os member₁ m in
      let w₁ = registered port (suc fd) object₁ m w in
      let w₂ = os.close (pos (suc fd)) w₁ in
      let present : contains (pos (suc fd)) m₁.io_members ≡ true =
        contains-insert_self os (pos (suc fd)) object₁ m in
      let (m₃, again, _, blocks) =
        add_io_member_again os (member_at object₂ (suc fd)) m₁ (reached port (suc fd) w₂).1 refl
          free present in
      (
        _,
        _,
        _,
        m₁,
        m₃,
        w₁,
        w₂,
        _,
        connect-reached port (suc fd) object₁ c m m₁ w w₁ _ first
            (add_io_member_free os member₁ m (reached port (suc fd) w).1 refl free fresh) added,
        disconnect-reached port fd object₁ c w w₁,
        refl,
        connect-reached port (suc fd) object₂ (record c { io_connection = none }) m₁ m₃ w₂
            (reached port (suc fd) w₂).1 success second again refl,
        blocks,
      )
