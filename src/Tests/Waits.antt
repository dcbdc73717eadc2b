-- ===== src/Tests/Waits.antt =====
-- A caller that waits for the reply to its message 7.
use deric_rpc.Prelude.{pos, Bytes, [], ◌∷◌, ◌++◌, ◌≢◌, inl, refl, int_equality}
use deric_rpc.Serial.{serial_message_meta}
use deric_rpc.Serial.Laws.{get-serial_message_meta}
use deric_rpc.Server.Registry.{message_type_replay}
use deric_rpc.Client.Entry.Waiting.{sent, finished, WaitState, IsReply, register, deliver}
use deric_rpc.Client.Entry.Waiting.Replies.{here, registering, early_reply_is_lost}
use deric_rpc.Tests.Packer.{packer, sized_ints-RoundTrips, sized_strings-RoundTrips}

abbrev pub reply : Bytes
reply = (serial_message_meta packer message_type_replay (b'f' ∷ []) (pos 7) []).1 ++ b'x' ∷ []

pub reply-IsReply : IsReply packer (pos 7) reply
reply-IsReply =
    let (t, _, i) =
      get-serial_message_meta packer message_type_replay (pos 7) (b'f' ∷ []) (b'x' ∷ []) []
        sized_ints-RoundTrips sized_strings-RoundTrips in
    (t, i)

abbrev calling : WaitState
calling = record { phase = sent; items = [] }

early_reply_is_lost_example :
    (register (pos 7) (deliver packer (pos 7) reply calling)).phase ≢ finished reply
unfolding deliver
early_reply_is_lost_example =
    early_reply_is_lost packer (pos 7) reply calling
      (register (pos 7) (deliver packer (pos 7) reply calling)) (inl refl) reply-IsReply
      (registering here refl) reply
