-- ===== src/Tests/Replies.antt =====
-- How long the replies of the small service are, and how much the small system gives at once.
use deric_rpc.Prelude.{
  ℕ, ◌+◌, ◌≤◌, ◌⊎◌, ℤ, pos, negsuc, Bytes, length, take, drop, [], ◌∷◌, ◌++◌, ◌≡◌, nat_equality,
  some, Option-cases, inl, inr, arith, length-append, length-take-min, length-drop, lookup,
  bytes_equality,
}
use deric_rpc.Io.Connection.Safety.{GivesAtMost}
use deric_rpc.Function.{exec_result}
use deric_rpc.Serial.{
  serial_message_meta, serial_message_data, get_message_name, get_message_id, get_message_data,
}
use deric_rpc.Server.Registry.{message_type_replay, handle_data, handle_command, handle_register}
use deric_rpc.Server.InStep.Returning.{Brief}
use deric_rpc.Tests.Hosts.{service, name}
use deric_rpc.Tests.Machine.{Machine, machine, capacity}
use deric_rpc.Tests.Packer.{packer, unpack_sized, unpack_front, sized, sized_strings}

pub machine-GivesAtMost : GivesAtMost machine capacity
machine-GivesAtMost fd n w bytes got =
    ground (
      arith,
      got,
      length-take-min n (take capacity w.incoming),
      length-take-min capacity w.incoming,
    )

unpack_front-short :
    (m object : Bytes) (offset next : ℕ)
    → unpack_front m offset ≡ some (object, next)
    → length object ≤ length m
unfolding unpack_front
unpack_front-short [] object offset next e = absurd (ground (arith, e))
unpack_front-short (n ∷ rest) object offset next e = ground (arith, e, length-take-min n rest)

-- An object is no longer than the message that it stands in.
unpack_sized-short :
    (m object : Bytes) (offset next : ℕ)
    → unpack_sized m offset ≡ some (object, next)
    → length object ≤ length m
unfolding unpack_front
unpack_sized-short m object offset next e =
    omega (arith, unpack_front-short (drop offset m) object offset next e, length-drop offset m)

get_message_name-short : (m : Bytes) → length (get_message_name packer m) ≤ length m
unfolding get_message_name
get_message_name-short m = elim (Option-cases (unpack_sized m 0)) [
  | inl gone ↦ ground (arith, gone)
  | inr ((first, n), found) ↦ elim (Option-cases (unpack_sized m n)) [
    | inl gone ↦ ground (arith, gone, found)
    | inr ((second, k), there) ↦ ground (arith, found, there, unpack_sized-short m second n k there)
  ]
]

get_message_data-short : (m : Bytes) → length (get_message_data packer sized_strings m) ≤ length m
unfolding get_message_data
get_message_data-short m = elim (Option-cases (unpack_sized m 0)) [
  | inl gone ↦ ground (arith, gone)
  | inr ((_, n₁), one) ↦ elim (Option-cases (unpack_sized m n₁)) [
    | inl gone ↦ ground (arith, gone, one)
    | inr ((_, n₂), two) ↦ elim (Option-cases (unpack_sized m n₂)) [
      | inl gone ↦ ground (arith, gone, one, two)
      | inr ((_, n₃), three) ↦ elim (Option-cases (unpack_sized m n₃)) [
        | inl gone ↦ ground (arith, gone, one, two, three)
        | inr ((object, n₄), four) ↦
            ground (arith, one, two, three, four, unpack_sized-short m object n₃ n₄ four)
      ]
    ]
  ]
]

meta-length :
    (type id : ℤ) (name old : Bytes)
    → length (serial_message_meta packer type name id old).1 ≤ 7 + length name
unfolding serial_message_meta
meta-length (pos t) (pos i) name old = omega (arith, length-append name (2 ∷ 0 ∷ i ∷ []))
meta-length (pos t) (negsuc i) name old = omega (arith, length-append name (2 ∷ 1 ∷ i ∷ []))
meta-length (negsuc t) (pos i) name old = omega (arith, length-append name (2 ∷ 0 ∷ i ∷ []))
meta-length (negsuc t) (negsuc i) name old = omega (arith, length-append name (2 ∷ 1 ∷ i ∷ []))

-- A reply is empty, the header of the reply, or that with the result of `shout`.
reply_ways :
    (m : Bytes) (w : Machine)
    → let reply = (handle_data packer service (some m) [] w).1 in
      let begun =
        (serial_message_meta packer message_type_replay
          (get_message_name packer m)
          (get_message_id packer m)
          []).1 in
      (reply ≡ [])
      ⊎ (reply ≡ begun)
      ⊎ (reply ≡ begun ++ sized (b'!' ∷ get_message_data packer sized_strings m))
unfolding handle_data handle_command handle_register exec_result lookup serial_message_data
reply_ways m w = ground arith

pub service-Brief : Brief packer capacity service
service-Brief m w fits =
    let reply = (handle_data packer service (some m) [] w).1 in
    let name = get_message_name packer m in
    let payload = get_message_data packer sized_strings m in
    let begun =
      (serial_message_meta packer message_type_replay name (get_message_id packer m) []).1 in
    let header = meta-length message_type_replay (get_message_id packer m) name [] in
    let named = get_message_name-short m in
    let short : length reply ≤ 9 + (capacity + capacity) = elim (reply_ways m w) [
      | inl empty ↦ rw empty (omega arith)
      | inr (inl same) ↦ rw same (omega (arith, header, named, fits))
      | inr (inr whole) ↦ rw whole (
          omega (
            arith,
            header,
            named,
            fits,
            get_message_data-short m,
            length-append begun (sized (b'!' ∷ payload)),
          ))
    ] in
    omega (arith, short)
