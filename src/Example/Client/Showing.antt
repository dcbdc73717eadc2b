-- ===== src/Example/Client/Showing.antt =====
-- What the program of example/client/client.cpp shows of a call that was sent.
use deric_rpc.Prelude.{
  ℕ, ◌+◌, ◌^◌, ◌<◌, ℤ, Bytes, [], ◌≡◌, ◌⊎◌, refl, inl, inr, some, arith, is_neg, if◌then◌else◌,
}
use deric_rpc.Os.{Kernel}
use deric_rpc.Serial.{Msgpack, Packing, get_message_data}
use deric_rpc.Client.Entry.{ClientEntry}
use deric_rpc.Client.Entry.Sync.{begin_sync, end_sync}
use deric_rpc.Client.Entry.Waiting.{sent, WaitState}
use deric_rpc.Client.Entry.Waiting.Replies.{Reach}
use deric_rpc.Rpc.Remote.{Packs}
use deric_rpc.Rpc.Sync.{Answers, sync_outcome}
use deric_rpc.Example.Console.{Console, decimal}
use deric_rpc.Example.Client.{Wait, failed_line, show_call}

module _ (mp : Msgpack) {W : Type 0} (console : Console W) (pairs : Packing mp.Object (ℤ × ℤ))
    (words : Packing mp.Object Bytes) (os : Kernel W) where
  -- A call of the example client whose request has gone out, and whose wait has come to an end by
  -- steps of the two threads, shows one line: the result that the service sent, in decimal, which
  -- `res` then holds; or that the call failed, and `res` is as it was; or, where wakeups without
  -- `notify_one` occur, the number that is read from the empty string, which `res` then holds.
  -- Nothing arrives under the call's id but the reply with that result, msgpack round-trips the
  -- types, and the counter of ids has not come to the largest `int`.
  pub show_call_shows :
      (Spurious : Type 0) (wait : Wait W) (func : Bytes) (args : ℤ × ℤ) (r res called value id : ℤ)
      (index index' : ℕ) (c c₁ c₂ : ClientEntry) (w w₁ w₂ : W) (s t : WaitState)
      → Packs mp pairs mp.ints
      → index + 1 < 2 ^ 31
      → begin_sync mp os pairs func args index c w ≡ some (id, s, c₁, w₁, index')
      → s.phase ≡ sent
      → wait id s c₁ w₁ ≡ some (t, c₂, w₂)
      → Reach mp id (Answers mp pairs mp.ints func r id) Spurious s t
      → end_sync mp mp.ints res t.phase ≡ some (called, value)
      → (line : Bytes) × (show_call mp console pairs words os wait func args res index c w
          ≡ some (value, record c₂ { waiting_items = t.items }, console.print_line line w₂, index'))
        × (((line ≡ decimal r) × (value ≡ r))
            ⊎ (Spurious
                × (line ≡ decimal (get_message_data mp mp.ints []))
                × (value ≡ get_message_data mp mp.ints []))
            ⊎ ((line ≡ failed_line func) × (value ≡ res)))
  unfolding show_call
  show_call_shows Spurious wait func args r res called value id index index' c c₁ c₂ w w₁ w₂ s t law
        bound begun is_sent waited reached ended =
      let outcome =
        sync_outcome mp pairs mp.ints func r os Spurious args index index' c c₁ w w₁ id s t res
          value called law bound begun reached ended in
      (
        if is_neg called then failed_line func else decimal value,
        ground (arith, begun, is_sent, waited, ended),
        elim outcome [
          | inl (fine, read) ↦ inl (rw (fine, read) refl, read)
          | inr (inl (woken_so, fine, read)) ↦ inr (inl (woken_so, rw (fine, read) refl, read))
          | inr (inr (failed, kept)) ↦ inr (inr (rw failed refl, kept))
        ],
      )
