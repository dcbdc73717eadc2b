-- ===== src/Rpc/Sync.antt =====
-- What a caller of RpcClientEntry::invokeWithResultSync gets:
-- deric_rpc/rpc/client/include/rpc_client_entry.h.
use deric_rpc.Prelude.{
  ℕ, ◌+◌, ◌^◌, ◌<◌, ℤ, pos, success, failure, is_neg, Bytes, length, [], ◌≡◌, ◌⊎◌, inl, inr, refl,
  true, false, some, arith, contains, lookup, int_equality,
}
use deric_rpc.Common.{started}
use deric_rpc.Os.{Kernel}
use deric_rpc.Wire.Header.{tcp_header_size}
use deric_rpc.Io.Connection.Framing.{frame}
use deric_rpc.Serial.{Msgpack, Packing, get_message_data}
use deric_rpc.Server.Client.{IoConnection}
use deric_rpc.Client.Impl.{ClientImpl}
use deric_rpc.Client.Entry.{ClientEntry, request, get_message_id_of}
use deric_rpc.Client.Entry.Waiting.{
  Phase, sent, registered, waiting, woken, gave_up, finished, WaitState, IsReply, register,
  begin_wait, deliver, resume,
}
use deric_rpc.Client.Entry.Waiting.Replies.{Reach, Holds, Reach-Holds, waiting_gets_reply}
use deric_rpc.Client.Entry.Sync.{begin_sync, end_sync}
use deric_rpc.Rpc.Messages.{reply_with, reply_of_result}
use deric_rpc.Rpc.Remote.{Packs}
use deric_rpc.Rpc.Sent.{impl_with_sent, invoke_sends_request}

module _ (mp : Msgpack) {A R : Type 0} (p : Packing mp.Object A) (q : Packing mp.Object R)
    (name : Bytes) (r : R) where
  -- Nothing arrives under the id but the reply with the result `r`.
  abbrev pub Answers : ℤ → Bytes → Type 0
  Answers id msg = IsReply mp id msg → msg ≡ reply_with mp q name id r

  -- What `invokeWithResultSync` returns with: the result `r`; where wakeups without `notify_one`
  -- occur, a success and what is read from the empty string; or a failure and the old value.
  abbrev pub EndsWith : Type 0 → R → ℤ → R → Type 0
  EndsWith Spurious v res value =
      ((res ≡ success) × (value ≡ r))
      ⊎ (Spurious × (res ≡ success) × (value ≡ get_message_data mp q []))
      ⊎ ((res ≡ failure) × (value ≡ v))

  end_sync-Holds :
      (Spurious : Type 0) (id : ℤ) (phase : Phase) (t : WaitState) (v value : R) (res : ℤ)
      → Packs mp p q
      → Holds mp id (Answers id) Spurious phase t.items
      → end_sync mp q v phase ≡ some (res, value)
      → EndsWith Spurious v res value
  unfolding end_sync
  end_sync-Holds Spurious id gave_up t v value res law h ended = inr (inr (ground (arith, ended)))
  end_sync-Holds Spurious id (finished msg) t v value res law (inl (woken_so, empty)) ended =
      inr (inl (woken_so, ground (arith, ended, empty), ground (arith, ended, empty)))
  end_sync-Holds Spurious id (finished msg) t v value res law (inr (reply, answer)) ended =
      let (_, _, read) = reply_of_result mp q name id r law.ints law.strings law.results in
      inl (ground (arith, ended, answer reply, read))
  end_sync-Holds Spurious id sent t v value res law h ended = absurd (ground (arith, ended))
  end_sync-Holds Spurious id registered t v value res law h ended = absurd (ground (arith, ended))
  end_sync-Holds Spurious id waiting t v value res law h ended = absurd (ground (arith, ended))
  end_sync-Holds Spurious id woken t v value res law h ended = absurd (ground (arith, ended))

  module _ {W : Type 0} (os : Kernel W) where
    begin_sync-Holds :
        (a : A) (index index' : ℕ) (c c' : ClientEntry) (w w' : W) (id : ℤ) (s : WaitState)
        → begin_sync mp os p name a index c w ≡ some (id, s, c', w', index')
        → (s.phase ≡ gave_up) ⊎ (s.phase ≡ sent)
    unfolding begin_sync
    begin_sync-Holds a index index' c c' w w' id s begun = ground (arith, begun)

    -- Whatever the two threads do, in whichever order, a call that returns gives the result that the
    -- service sent, or fails and leaves `returnValue` as it was; or, where wakeups without
    -- `notify_one` occur, it reports a success with what is read from the empty string. Nothing
    -- arrives under the call's id but the reply with that result, msgpack round-trips the types that
    -- are sent, and the counter of ids has not come to the largest `int`.
    pub sync_outcome :
        (Spurious : Type 0) (a : A) (index index' : ℕ) (c c' : ClientEntry) (w w' : W) (id : ℤ)
        (s t : WaitState) (v value : R) (res : ℤ)
        → Packs mp p q
        → index + 1 < 2 ^ 31
        → begin_sync mp os p name a index c w ≡ some (id, s, c', w', index')
        → Reach mp id (Answers id) Spurious s t
        → end_sync mp q v t.phase ≡ some (res, value)
        → EndsWith Spurious v res value
    sync_outcome Spurious a index index' c c' w w' id s t v value res law bound begun reached
          ended =
        let started_out = begin_sync-Holds a index index' c c' w w' id s begun in
        let at_start : Holds mp id (Answers id) Spurious s.phase s.items = elim started_out [
          | inl e ↦ rw e tt
          | inr e ↦ rw e tt
        ] in
        end_sync-Holds Spurious id t.phase t v value res law
          (Reach-Holds mp id (Answers id) Spurious reached at_start) ended

    -- A call whose reply comes while its caller waits returns: the request goes out in one frame
    -- under a new id, and behind the reply the caller has the result, and the client the items of
    -- its other callers. The counter of ids has not come to the largest `int`, the client is connected, `send` succeeds, the id is not waited for yet, and
    -- the request fits an `int` with its header.
    pub sync_returns :
        (a : A) (index fd : ℕ) (io : IoConnection) (impl : ClientImpl) (c : ClientEntry) (w : W)
        (v : R) (other : ℤ)
        → Packs mp p q
        → index + 1 < 2 ^ 31
        → c.has_serialer ≡ true
        → c.client_impl ≡ some impl
        → impl.io_connection ≡ some io
        → io.connection.state ≡ started
        → io.connection.socket_fd ≡ pos fd
        → tcp_header_size + length (request mp p name (pos (index + 1)) a) < 2 ^ 31
        → contains (pos (index + 1)) c.waiting_items ≡ false
        → is_neg (os.send (pos fd) (frame (request mp p name (pos (index + 1)) a)) w).0 ≡ false
        → let id = pos (index + 1) in
          (s : WaitState) × (c' : ClientEntry) × (begin_sync mp os p name a index c w
            ≡ some (id, s, c', (os.send (pos fd) (frame (request mp p name id a)) w).1, index + 1))
          × (let t =
                resume id
                  (deliver mp id (reply_with mp q name id r) (begin_wait id (register id s))) in
              (end_sync mp q v t.phase ≡ some (success, r))
              × (lookup other t.items ≡ lookup other c.waiting_items))
    unfolding begin_sync get_message_id_of end_sync
    sync_returns a index fd io impl c w v other law bound ser has_impl has st open_fd small free
          sends =
        let id = pos (index + 1) in
        let s : WaitState = record { phase = sent; items = c.waiting_items } in
        let message = request mp p name id a in
        let (is_reply, of_call, read) =
          reply_of_result mp q name id r law.ints law.strings law.results in
        let (phase, items) =
          waiting_gets_reply mp id (reply_with mp q name id r) s other refl free
            (is_reply, of_call) in
        (
          s,
          record c { client_impl = some (impl_with_sent message io impl) },
          ground (
            arith,
            invoke_sends_request os mp p name a index fd io impl c w law.ints bound ser has_impl has
                st open_fd small,
            sends,
          ),
          (rw (phase, read) refl, items),
        )
