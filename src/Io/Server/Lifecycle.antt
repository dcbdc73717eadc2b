-- ===== src/Io/Server/Lifecycle.antt =====
-- Starting and stopping TcpIoServer: deric_rpc/io/src/tcp_io_server.cpp.
use deric_rpc.Prelude.{
  ℕ, ℤ, is_neg, failure, success, true, false, ◌≡◌, ◌≢◌, ◌⊎◌, inl, inr, none, some, arith,
  Option-cases,
}
use deric_rpc.Common.{initialized, started}
use deric_rpc.Os.{Kernel}
use deric_rpc.Io.Events.{IoModule, add_io_member, remove_io_member}
use deric_rpc.Io.Server.{TcpIoServer, remove_entry, start, stop}

module _ {W : Type 0} (os : Kernel W) where
  abbrev Started : ℕ → ℤ → TcpIoServer → Type 0
  Started entry res s' =
      ((is_neg res ≡ false)
        × (s'.state ≡ started)
        × (is_neg s'.socket_fd ≡ false)
        × (s'.io_entry ≡ some (record { object = entry; fd = s'.socket_fd })))
      ⊎ ((is_neg res ≡ true) × (s'.state ≡ initialized))

  pub start_outcome :
      (entry : ℕ) (s s' : TcpIoServer) (m m' : IoModule) (w w' : W) (res : ℤ)
      → s.state ≡ initialized
      → start os entry s m w ≡ some (res, s', m', w')
      → Started entry res s'
  unfolding start
  start_outcome entry s s' m m' w w' res st e = ground arith

  start_total :
      (entry : ℕ) (s : TcpIoServer) (m : IoModule) (w : W)
      → m.members_locked ≡ false
      → start os entry s m w ≢ none
  unfolding start add_io_member
  start_total entry s m w free = ground arith

  -- `start` of an initialized server, with the mutex of the event module's members free, returns.
  -- Either it succeeds, and the server is started on a descriptor that is not negative, with an
  -- entry kept for that descriptor; or it fails, and the server can be started again.
  pub start_returns :
      (entry : ℕ) (s : TcpIoServer) (m : IoModule) (w : W)
      → s.state ≡ initialized
      → m.members_locked ≡ false
      → (res : ℤ) × (s' : TcpIoServer) × (m' : IoModule) × (w' : W) × (start os entry s m w
          ≡ some (res, s', m', w'))
        × Started entry res s'
  start_returns entry s m w st free = elim (Option-cases (start os entry s m w)) [
    | inl gone ↦ absurd (start_total entry s m w free gone)
    | inr ((res, s', m', w'), e) ↦ (res, s', m', w', e, start_outcome entry s s' m m' w w' res st e)
  ]

  pub stop_outcome :
      (s s' : TcpIoServer) (m m' : IoModule) (w w' : W) (res : ℤ)
      → s.state ≡ started
      → stop os s m w ≡ some (res, s', m', w')
      → (res ≡ success)
        × (s' ≡ record s { io_entry = none; socket_fd = failure; state = initialized })
        × ((w₁ : W) × (w' ≡ os.close s.socket_fd w₁))
  unfolding stop
  stop_outcome s s' m m' w w' res st e = elim (Option-cases (remove_entry os s.io_entry m w)) [
    | inl gone ↦ ground (arith, gone)
    | inr ((m₁, w₁), removed) ↦
        (ground (arith, removed), ground (arith, removed), (w₁, ground (arith, removed)))
  ]

  stop_total :
      (s : TcpIoServer) (m : IoModule) (w : W) → m.members_locked ≡ false → stop os s m w ≢ none
  unfolding stop remove_io_member
  stop_total s m w free = ground arith

  -- `stop` of a started server, with the mutex of the event module's members free, returns and
  -- succeeds: the last thing that it does is to close the server's socket; the server forgets the
  -- socket and its entry in the event module, and can be started again.
  pub stop_returns :
      (s : TcpIoServer) (m : IoModule) (w : W)
      → s.state ≡ started
      → m.members_locked ≡ false
      → (m' : IoModule) × (w₁ : W) × (stop os s m w
          ≡ some (
            success,
            record s { io_entry = none; socket_fd = failure; state = initialized },
            m',
            os.close s.socket_fd w₁,
          ))
  stop_returns s m w st free = elim (Option-cases (stop os s m w)) [
    | inl gone ↦ absurd (stop_total s m w free gone)
    | inr ((res, s', m', w'), e) ↦
        let (ok, server, (w₁, closed)) = stop_outcome s s' m m' w w' res st e in
        (m', w₁, ground (arith, e, ok, server, closed))
  ]
