-- ===== src/Client/Entry/Sync.antt =====
-- `invokeWithResultSync` of deric_rpc/rpc/client/include/rpc_client_entry.h, in two parts: up to the
-- call of `_waitForResult`, whose steps are those of Waiting, and behind it.
use deric_rpc.Prelude.{
  ℕ, Bytes, Option, none, some, ◌>>=◌, ℤ, failure, success, is_neg, if◌then◌else◌,
}
use deric_rpc.Os.{Kernel}
use deric_rpc.Serial.{Msgpack, Packing, get_message_data}
use deric_rpc.Client.Entry.{ClientEntry, invoke, get_message_id_of}
use deric_rpc.Client.Entry.Waiting.{Phase, sent, gave_up, finished, WaitState}

module _ (mp : Msgpack) where
  -- The message id of the call, where its caller stands, the client, the world and the counter.
  unfoldable pub begin_sync :
      {W A : Type 0}
      → Kernel W
      → Packing mp.Object A
      → Bytes
      → A
      → ℕ
      → ClientEntry
      → W
      → Option (ℤ × WaitState × ClientEntry × W × ℕ)
  begin_sync os p func args index c w = do
    (res, c', w', index') ← invoke mp os p func args index c w
    some (
      (get_message_id_of index).0,
      record { phase = if is_neg res then gave_up else sent; items = c'.waiting_items },
      c',
      w',
      index',
    )

  -- The result and `returnValue`, of a caller that is at an end.
  unfoldable pub end_sync : {R : Type 0} → Packing mp.Object R → R → Phase → Option (ℤ × R)
  end_sync q return_value gave_up = some (failure, return_value)
  end_sync q return_value (finished result_str) = some (success, get_message_data mp q result_str)
  end_sync q return_value _ = none
