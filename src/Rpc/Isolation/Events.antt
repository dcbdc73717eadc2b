-- ===== src/Rpc/Isolation/Events.antt =====
-- Events on the descriptor of one client: `IoModule::waitThreadFunc` of
-- deric_rpc/io/src/io_module.cpp, and what it calls.
use deric_rpc.Prelude.{
  ℕ, ℤ, ◌≡◌, refl, subst, false, some, arith, inl, inr, Option-cases, lookup, int_beq, int_equality,
  Bool-cases, ◌||◌, not, nat_equality,
}
use deric_rpc.Common.{epoll_failed, IoMemberError, IoMemberErrorAction}
use deric_rpc.Os.{Kernel}
use deric_rpc.Io.Connection.{Connection}
use deric_rpc.Io.Connection
use deric_rpc.Io.Events.{IoModule}
use deric_rpc.Io.Events.Loop.{EpollEvent, Pending, handle_event}
use deric_rpc.Io.Connection.Preserves.{on_read_available-Keeps, on_io_error-Keeps}
use deric_rpc.Serial.{Msgpack}
use deric_rpc.Server.Client.{ClientEntry}
use deric_rpc.Server.Host.{
  Host, connection_object, write_back, kernel, entries, read_connection, host_members,
  on_read_available, on_io_error,
}
use deric_rpc.Server.Linked.{Linked}
use deric_rpc.Rpc.Isolation.{AgreeBut, UntouchedBut, entries-Keeps, write_back-UntouchedBut}

module _ (mp : Msgpack) {V : Type 0} (os : Kernel V) (id : ℕ) where
  AgreeBut-self :
      (e : ClientEntry) (σ : Host V)
      → lookup id σ.service.clients ≡ some e
      → Linked id e
      → AgreeBut id σ.service σ.service
  AgreeBut-self e σ listed l = record {
    others = λ other ne. refl;
    numbered = λ e' found. ground (arith, found, listed, l.numbered);
    functions = refl;
    state = refl;
    server = refl;
    serialer = refl;
  }

  on_read_available-UntouchedBut :
      (e : ClientEntry) (σ σ' : Host V) (res : ℤ)
      → lookup id σ.service.clients ≡ some e
      → Linked id e
      → on_read_available mp os (connection_object id) σ ≡ some (res, σ')
      → UntouchedBut id σ σ'
  unfolding on_read_available read_connection
  on_read_available-UntouchedBut e σ σ' res listed l run =
      elim (Option-cases
        (Connection.on_read_available (kernel os) (entries mp os) l.connection σ)) [
          | inl gone ↦ absurd (ground (arith, run, gone, listed, l.connected))
          | inr ((r, c, τ), read) ↦
              let same : write_back id c τ ≡ σ' = ground (arith, run, read, listed, l.connected) in
              subst (UntouchedBut id σ) same (
                write_back-UntouchedBut mp os id σ c τ (
                  on_read_available-Keeps (kernel os) (entries mp os) (λ c. UntouchedBut id σ) id
                    (entries-Keeps mp os id σ) r l.connection c σ τ l.client
                    (AgreeBut-self e σ listed l, refl) read))
        ]

  on_io_error-UntouchedBut :
      (e : ClientEntry) (σ σ' : Host V) (error : IoMemberError) (action : IoMemberErrorAction)
      → lookup id σ.service.clients ≡ some e
      → Linked id e
      → on_io_error mp os (connection_object id) error σ ≡ some (action, σ')
      → UntouchedBut id σ σ'
  unfolding on_io_error
  on_io_error-UntouchedBut e σ σ' error action listed l run =
      elim (Option-cases
        (Connection.on_io_error (kernel os) (entries mp os) error l.connection σ)) [
          | inl gone ↦ absurd (ground (arith, run, gone, listed, l.connected))
          | inr ((r, c, τ), failed) ↦
              let same : write_back id c τ ≡ σ' =
                ground (arith, run, failed, listed, l.connected) in
              subst (UntouchedBut id σ) same (
                write_back-UntouchedBut mp os id σ c τ (
                  on_io_error-Keeps (kernel os) (entries mp os) (λ c. UntouchedBut id σ) id
                    (entries-Keeps mp os id σ) r error l.connection c σ τ l.client
                    (AgreeBut-self e σ listed l, refl) failed))
        ]

  -- An event on one client's descriptor, whatever it is and however the system calls, msgpack and the
  -- service's functions come out: if the handling ends, every other client is in the service's
  -- table as before, and so are the functions, the server, the serialer, the state of the
  -- service and the counter of client ids. The client is listed with its connection, which points
  -- back to it.
  pub handle_event-UntouchedBut :
      (e : ClientEntry) (ev : EpollEvent) (p p' : Pending) (m m' : IoModule) (σ σ' : Host V)
      → lookup id σ.service.clients ≡ some e
      → Linked id e
      → int_beq ev.fd m.wakeup_read_fd ≡ false
      → lookup ev.fd m.io_members ≡ some (connection_object id)
      → handle_event (kernel os) (host_members mp os) ev p m σ ≡ some (p', m', σ')
      → UntouchedBut id σ σ'
  unfolding handle_event
  handle_event-UntouchedBut e ev p p' m m' σ σ' listed l apart member run =
      let τ : Host V = record σ { io_module = m } in
      elim (Bool-cases (ev.error || ev.hang_up || not ev.readable)) [
        | inl bad ↦ elim (Option-cases (on_io_error mp os (connection_object id) epoll_failed τ)) [
          | inl gone ↦ absurd (ground (arith, run, apart, member, bad, gone))
          | inr ((action, τ'), failed) ↦
              let same : τ' ≡ σ' = ground (arith, run, apart, member, bad, failed) in
              subst (UntouchedBut id σ) same
                (on_io_error-UntouchedBut e τ τ' epoll_failed action listed l failed)
        ]
        | inr good ↦ elim (Option-cases (on_read_available mp os (connection_object id) τ)) [
          | inl gone ↦ absurd (ground (arith, run, apart, member, good, gone))
          | inr ((res, τ'), read) ↦
              let same : τ' ≡ σ' = ground (arith, run, apart, member, good, read) in
              subst (UntouchedBut id σ) same
                (on_read_available-UntouchedBut e τ τ' res listed l read)
        ]
      ]
