-- ===== src/Rpc/Messages.antt =====
-- A request and its reply as messages: deric_rpc/rpc/client/include/rpc_client_entry.h and
-- deric_rpc/rpc/server/src/rpc_service_impl.cpp.
use deric_rpc.Prelude.{
  ◌∷◌, ◌++◌, ◌≢◌, ℤ, Bytes, length, [], append-nil, ◌≡◌, refl, none, arith, bytes_equality,
}
use deric_rpc.Serial.{
  Msgpack, Packing, serial_message_data, serial_message_meta, get_message_type, get_message_id,
  get_message_data,
}
use deric_rpc.Serial.Laws.{
  RoundTrips, get-serial_message_meta, get-serial_message_data, get-serial_message_meta_only,
}
use deric_rpc.Server.Registry.{message_type_command, message_type_replay}
use deric_rpc.Client.Entry.{request}

-- The leading objects of the reply to a call.
abbrev pub replied : Msgpack → Bytes → ℤ → Bytes
replied mp name msg_id = (serial_message_meta mp message_type_replay name msg_id []).1

-- The reply that carries a result.
abbrev pub reply_with : (mp : Msgpack) {R : Type 0} → Packing mp.Object R → Bytes → ℤ → R → Bytes
reply_with mp q name msg_id r = (serial_message_data mp q r (replied mp name msg_id)).1

module _ (mp : Msgpack) where
  open mp use {Object, ints, strings}

  -- The reply of a function with a result carries its result, under the id of the request.
  pub reply_of_result :
      {R : Type 0} (q : Packing Object R) (name : Bytes) (msg_id : ℤ) (r : R)
      → RoundTrips mp ints
      → RoundTrips mp strings
      → RoundTrips mp q
      → let reply = (serial_message_data mp q r (replied mp name msg_id)).1 in
        (get_message_type mp reply ≡ message_type_replay)
        × (get_message_id mp reply ≡ msg_id)
        × (get_message_data mp q reply ≡ r)
  unfolding serial_message_data
  reply_of_result q name msg_id r int_law string_law law =
      let (t, _, i) =
        get-serial_message_meta mp message_type_replay msg_id name (q.pack r) [] int_law
          string_law in
      (
        t,
        i,
        get-serial_message_data mp q message_type_replay msg_id name [] r int_law string_law law,
      )

  -- The arguments are read back from the request.
  pub get_message_data-request :
      {A : Type 0} (p : Packing Object A) (name : Bytes) (msg_id : ℤ) (a : A)
      → RoundTrips mp ints
      → RoundTrips mp strings
      → RoundTrips mp p
      → get_message_data mp p (request mp p name msg_id a) ≡ a
  unfolding request
  get_message_data-request p name msg_id a int_law string_law law =
      get-serial_message_data mp p message_type_command msg_id name [] a int_law string_law law

  -- A reply that ends behind its leading objects.
  pub reply_without_data :
      {R : Type 0} (q : Packing Object R) (name : Bytes) (msg_id : ℤ)
      → RoundTrips mp ints
      → RoundTrips mp strings
      → ((m : Bytes) → mp.unpack m (length m) ≡ none)
      → let reply = replied mp name msg_id in
        (get_message_type mp reply ≡ message_type_replay)
        × (get_message_id mp reply ≡ msg_id)
        × (get_message_data mp q reply ≡ q.initial)
  reply_without_data q name msg_id int_law string_law ends =
      let (t, _, i) =
        get-serial_message_meta mp message_type_replay msg_id name [] [] int_law string_law in
      let e = append-nil (replied mp name msg_id) in
      (
        rw e at t,
        rw e at i,
        get-serial_message_meta_only mp q message_type_replay msg_id name [] int_law string_law
            ends,
      )

  -- A packed number has bytes: without any it could not be told from another number.
  pack-not_empty : (i j : ℤ) → RoundTrips mp ints → i ≢ j → ints.pack i ≢ []
  pack-not_empty i j law differ e =
      let (o₁, at₁, as₁) = law.unpacked [] (ints.pack j) i in
      let (o₀, at₀, as₀) = law.unpacked [] [] j in
      ground (arith, at₁, at₀, as₁, as₀, e, append-nil (ints.pack j))

  append-not_empty : (xs ys : Bytes) → xs ≢ [] → xs ++ ys ≢ []
  append-not_empty [] ys ne e = ne refl
  append-not_empty (x ∷ xs) ys ne e = cc

  message-not_empty :
      (msg_type other msg_id : ℤ) (name rest : Bytes)
      → RoundTrips mp ints
      → msg_type ≢ other
      → (serial_message_meta mp msg_type name msg_id []).1 ++ rest ≢ []
  unfolding serial_message_meta
  message-not_empty msg_type other msg_id name rest law differ =
      append-not_empty _ rest
        (append-not_empty (ints.pack msg_type) _ (pack-not_empty msg_type other law differ))

  pub reply_with-not_empty :
      {R : Type 0} (q : Packing Object R) (name : Bytes) (msg_id : ℤ) (r : R)
      → RoundTrips mp ints
      → reply_with mp q name msg_id r ≢ []
  unfolding serial_message_data
  reply_with-not_empty q name msg_id r law =
      message-not_empty message_type_replay message_type_command msg_id name (q.pack r) law
        (λ e. ground arith)

  pub request-not_empty :
      {A : Type 0} (p : Packing Object A) (name : Bytes) (msg_id : ℤ) (a : A)
      → RoundTrips mp ints
      → request mp p name msg_id a ≢ []
  unfolding request serial_message_data
  request-not_empty p name msg_id a law =
      message-not_empty message_type_command message_type_replay msg_id name (p.pack a) law
        (λ e. ground arith)
