-- ===== src/Rpc/Spurious.antt =====
-- A wait of RpcClientEntry::_waitForResult that ends without a reply:
-- deric_rpc/rpc/client/src/rpc_client_entry.cpp, `item.cv.wait(ul)`.
use deric_rpc.Prelude.{
  ℤ, success, Bytes, length, [], ◌≡◌, false, none, some, arith, contains, insert, erase,
  int_equality, int_beq_iff, lookup-insert, lookup-erase, contains-lookup,
}
use deric_rpc.Serial.{Msgpack, Packing, get_message_data}
use deric_rpc.Client.Entry.{store_reply, add_result_waiting_item, remove_result_waiting_item}
use deric_rpc.Client.Entry.Waiting.{
  WaitState, IsReply, register, begin_wait, wake_spuriously, resume,
}
use deric_rpc.Client.Entry.Sync.{end_sync}

module _ (mp : Msgpack) where
  get_message_data-nothing :
      {R : Type 0} (q : Packing mp.Object R)
      → ((m : Bytes) → mp.unpack m (length m) ≡ none)
      → get_message_data mp q [] ≡ q.initial
  unfolding get_message_data
  get_message_data-nothing q ends = ground (arith, ends [])

  -- The caller waits without a predicate, so a wakeup that no reply has caused ends the call: it
  -- reports a success, and the value that it hands over is the default of the result's type. The
  -- reply that comes afterwards finds no item and is dropped. The caller's id was not waited for
  -- yet, and msgpack throws at the end of the bytes.
  pub spurious_wakeup_reads_default :
      {R : Type 0} (q : Packing mp.Object R) (msg_id : ℤ) (s : WaitState) (v : R) (reply : Bytes)
      → ((m : Bytes) → mp.unpack m (length m) ≡ none)
      → contains msg_id s.items ≡ false
      → IsReply mp msg_id reply
      → let t = resume msg_id (wake_spuriously (begin_wait msg_id (register msg_id s))) in
        (end_sync mp q v t.phase ≡ some (success, q.initial))
        × (store_reply mp reply t.items ≡ (t.items, none))
  unfolding register begin_wait wake_spuriously resume end_sync store_reply add_result_waiting_item
      remove_result_waiting_item
  spurious_wakeup_reads_default q msg_id s v reply ends free (replay, own) =
      let items = insert msg_id [] s.items in
      let there = contains-lookup msg_id items in
      let found = lookup-insert msg_id msg_id [] s.items in
      let same = int_beq_iff msg_id msg_id in
      (
        ground (arith, free, there, found, same, get_message_data-nothing q ends),
        ground (
          arith,
          free,
          there,
          found,
          same,
          own,
          lookup-erase msg_id msg_id items,
          contains-lookup msg_id (erase msg_id items),
        ),
      )
