-- ===== src/Serial/Laws.antt =====
-- What is packed into a message is read back from it: deric_rpc/serial/rpc_serialer.h.
use deric_rpc.Prelude.{
  ℕ, ◌+◌, ℤ, Bytes, length, length-append, [], ◌++◌, append_assoc, append-nil, ◌≡◌, refl, sym, none,
  some, arith,
}
use deric_rpc.Serial.{
  Msgpack, Packing, serial_message_data, serial_message_meta, get_message_type, get_message_name,
  get_message_id, get_message_data,
}

-- What msgpack promises for a type: a packed value is unpacked where it starts, whatever stands in
-- front of it and behind it, and the new offset lies behind it.
pub record RoundTrips (mp : Msgpack) {T : Type 0} (p : Packing mp.Object T) : Type 0 where
  pub unpacked :
      (before after : Bytes) (t : T)
      → (o : mp.Object) × (mp.unpack (before ++ (p.pack t ++ after)) (length before)
          ≡ some (o, length before + length (p.pack t)))
        × (p.as_value o ≡ some t)

-- The bytes of the three leading objects of a message.
abbrev pub meta : Msgpack → ℤ → Bytes → ℤ → Bytes
meta mp msg_type msg_name msg_id =
    mp.ints.pack msg_type ++ (mp.strings.pack msg_name ++ mp.ints.pack msg_id)

module _ (mp : Msgpack) where
  open mp use {Object, unpack, ints, strings}

  unpack_at :
      {T : Type 0} {p : Packing Object T}
      → RoundTrips mp p
      → (before after whole : Bytes) (offset : ℕ) (t : T) → whole ≡ before ++ (p.pack t ++ after)
      → offset ≡ length before
      → (o : Object) × (unpack whole offset ≡ some (o, offset + length (p.pack t)))
        × (p.as_value o ≡ some t)
  unpack_at law before after whole offset t e f = rw (e, f) (law.unpacked before after t)

  regroup_two : (a b c rest : Bytes) → (a ++ (b ++ c)) ++ rest ≡ a ++ (b ++ (c ++ rest))
  regroup_two a b c rest = simp append_assoc

  -- The type, the name and the id of a message are the packed ones, whatever data follow.
  pub get-serial_message_meta :
      (msg_type msg_id : ℤ) (msg_name rest out_string : Bytes)
      → RoundTrips mp ints
      → RoundTrips mp strings
      → let message = (serial_message_meta mp msg_type msg_name msg_id out_string).1 ++ rest in
        (get_message_type mp message ≡ msg_type)
        × (get_message_name mp message ≡ msg_name)
        × (get_message_id mp message ≡ msg_id)
  unfolding serial_message_meta get_message_type get_message_name get_message_id
  get-serial_message_meta msg_type msg_id msg_name rest out_string int_law string_law =
      let a = ints.pack msg_type in
      let b = strings.pack msg_name in
      let c = ints.pack msg_id in
      let m = (a ++ (b ++ c)) ++ rest in
      let (o₁, at₁, as₁) =
        unpack_at int_law [] (b ++ (c ++ rest)) m 0 msg_type (simp append_assoc) refl in
      let (o₂, at₂, as₂) =
        unpack_at string_law a (c ++ rest) m (length a) msg_name (simp append_assoc) refl in
      let (o₃, at₃, as₃) =
        unpack_at int_law (a ++ b) rest m (length a + length b) msg_id (simp append_assoc)
          (sym (length-append a b)) in
      (ground (arith, at₁, as₁), ground (arith, at₁, at₂, as₂), ground (arith, at₁, at₂, at₃, as₃))

  -- The value that is appended behind the three leading objects is the one that is read back.
  pub get-serial_message_data :
      {T : Type 0} (p : Packing Object T) (msg_type msg_id : ℤ) (msg_name out_string : Bytes)
      (t : T)
      → RoundTrips mp ints
      → RoundTrips mp strings
      → RoundTrips mp p
      → let begun = (serial_message_meta mp msg_type msg_name msg_id out_string).1 in
        get_message_data mp p (serial_message_data mp p t begun).1 ≡ t
  unfolding serial_message_meta serial_message_data get_message_data
  get-serial_message_data p msg_type msg_id msg_name out_string t int_law string_law law =
      let a = ints.pack msg_type in
      let b = strings.pack msg_name in
      let c = ints.pack msg_id in
      let d = p.pack t in
      let m = (a ++ (b ++ c)) ++ d in
      let (o₁, at₁, _) =
        unpack_at int_law [] (b ++ (c ++ d)) m 0 msg_type (simp append_assoc) refl in
      let (o₂, at₂, _) =
        unpack_at string_law a (c ++ d) m (length a) msg_name (simp append_assoc) refl in
      let (o₃, at₃, _) =
        unpack_at int_law (a ++ b) d m (length a + length b) msg_id (simp append_assoc)
          (sym (length-append a b)) in
      let (o₄, at₄, as₄) =
        unpack_at law (a ++ (b ++ c)) [] m (length a + length b + length c) t
          (simp (append_assoc, append-nil))
          (omega (arith, length-append a (b ++ c), length-append b c)) in
      ground (arith, at₁, at₂, at₃, at₄, as₄)

  -- Where nothing stands behind the three leading objects, and msgpack throws at the end of the
  -- bytes, the data that are read are the default value.
  pub get-serial_message_meta_only :
      {T : Type 0} (p : Packing Object T) (msg_type msg_id : ℤ) (msg_name out_string : Bytes)
      → RoundTrips mp ints
      → RoundTrips mp strings
      → ((m : Bytes) → unpack m (length m) ≡ none)
      → get_message_data mp p (serial_message_meta mp msg_type msg_name msg_id out_string).1
        ≡ p.initial
  unfolding serial_message_meta get_message_data
  get-serial_message_meta_only p msg_type msg_id msg_name out_string int_law string_law ends =
      let a = ints.pack msg_type in
      let b = strings.pack msg_name in
      let c = ints.pack msg_id in
      let m = a ++ (b ++ c) in
      let (o₁, at₁, _) = unpack_at int_law [] (b ++ c) m 0 msg_type refl refl in
      let (o₂, at₂, _) = unpack_at string_law a c m (length a) msg_name refl refl in
      let (o₃, at₃, _) =
        unpack_at int_law (a ++ b) [] m (length a + length b) msg_id
          (simp (append_assoc, append-nil)) (sym (length-append a b)) in
      let size : length a + length b + length c ≡ length m =
        omega (arith, length-append a (b ++ c), length-append b c) in
      ground (arith, at₁, at₂, at₃, size, ends m)
