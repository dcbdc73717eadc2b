-- ===== src/Rpc/Call.antt =====
-- A request and its reply, from RpcClientEntry::invokeWithResultSync through
-- RpcServiceImpl::handleData and FunctionHelper::exec, and back.
use deric_rpc.Prelude.{
  ℤ, failure, success, Bytes, length, [], ◌≡◌, refl, ◌∙◌, true, false, none, some, arith, lookup,
  contains, insert, bytes_equality,
}
use deric_rpc.Common.{started}
use deric_rpc.Serial.{
  Msgpack, Packing, serial_message_data, get_message_type, get_message_id, get_message_data,
}
use deric_rpc.Serial.Laws.{RoundTrips, get-serial_message_meta}
use deric_rpc.Function.{FunctionHelper, exec_result, exec_void}
use deric_rpc.Server.Service.{Service}
use deric_rpc.Server.Registry.{
  register_method, handle_command, handle_data, message_type_command, message_type_replay,
}
use deric_rpc.Server.Registry.Methods.{
  handle_command-lookup, register_method_fresh, lookup-insert_self,
}
use deric_rpc.Client.Entry.{request}
use deric_rpc.Rpc.Messages.{
  replied, reply_with, reply_of_result, get_message_data-request, reply_without_data,
}

module _ (mp : Msgpack) {W : Type 0} where
  open mp use {Object, ints, strings}

  -- A started service passes a request on to the function of its name, with the reply begun.
  pub handle_data-request :
      {A : Type 0} (p : Packing Object A) (s : Service W) (name : Bytes) (msg_id : ℤ) (a : A)
      (w : W)
      → RoundTrips mp ints
      → RoundTrips mp strings
      → s.state ≡ started
      → s.has_serialer ≡ true
      → handle_data mp s (some (request mp p name msg_id a)) [] w
        ≡ handle_command name s (request mp p name msg_id a) (replied mp name msg_id) w
  unfolding handle_data request serial_message_data
  handle_data-request p s name msg_id a w int_law string_law st serial =
      let (t, n, i) =
        get-serial_message_meta mp message_type_command msg_id name (p.pack a) [] int_law
          string_law in
      ground (arith, t, n, i)

  pub exec_result-request :
      {A R : Type 0} (p : Packing Object A) (q : Packing Object R) (h : FunctionHelper)
      (func : A → W → R × W) (name : Bytes) (msg_id : ℤ) (a : A) (w : W)
      → RoundTrips mp ints
      → RoundTrips mp strings
      → RoundTrips mp p
      → h.has_serialer ≡ true
      → exec_result mp p q h func (request mp p name msg_id a) (replied mp name msg_id) w ≡ (
        success,
        (serial_message_data mp q (func a w).0 (replied mp name msg_id)).1,
        (func a w).1,
      )
  unfolding exec_result
  exec_result-request p q h func name msg_id a w int_law string_law law helper =
      rw (helper, exec_result)
        (rw (get_message_data-request mp p name msg_id a int_law string_law law))

  -- The service's answer to a call of a function in its table, whole.
  pub handle_data-found :
      {A R : Type 0} (p : Packing Object A) (q : Packing Object R) (s : Service W)
      (h : FunctionHelper) (func : A → W → R × W) (name : Bytes) (msg_id : ℤ) (a : A) (w : W)
      → RoundTrips mp ints
      → RoundTrips mp strings
      → RoundTrips mp p
      → s.state ≡ started
      → s.has_serialer ≡ true
      → h.has_serialer ≡ true
      → lookup name s.functions ≡ some (exec_result mp p q h func)
      → handle_data mp s (some (request mp p name msg_id a)) [] w
        ≡ (success, reply_with mp q name msg_id (func a w).0, (func a w).1)
  handle_data-found p q s h func name msg_id a w int_law string_law law st serial helper found =
      handle_data-request p s name msg_id a w int_law string_law st serial
      ∙ handle_command-lookup name (request mp p name msg_id a) (replied mp name msg_id) s w
          (some (exec_result mp p q h func)) found
      ∙ exec_result-request p q h func name msg_id a w int_law string_law law helper

  pub handle_data-registered :
      {A R : Type 0} (p : Packing Object A) (q : Packing Object R) (s : Service W)
      (h : FunctionHelper) (func : A → W → R × W) (name : Bytes) (msg_id : ℤ) (a : A) (w : W)
      → RoundTrips mp ints
      → RoundTrips mp strings
      → RoundTrips mp p
      → s.state ≡ started
      → s.has_serialer ≡ true
      → h.has_serialer ≡ true
      → contains name s.functions ≡ false
      → let s' = (register_method name (exec_result mp p q h func) s).1 in
        handle_data mp s' (some (request mp p name msg_id a)) [] w
        ≡ (success, reply_with mp q name msg_id (func a w).0, (func a w).1)
  handle_data-registered p q s h func name msg_id a w int_law string_law law st serial helper
        fresh =
      let f = exec_result mp p q h func in
      rw (register_method_fresh name f s fresh) (
        handle_data-found p q (record s { functions = insert name f s.functions }) h func name
          msg_id a w int_law string_law law st serial helper (lookup-insert_self name f s))

  -- A call of a registered function: a started service that gets the client's request runs the
  -- function once, on the client's arguments, and the client reads from the reply, under its own
  -- message id, what the function returned. The name was free at the registration, the service and
  -- the function helper have their serialer, and msgpack round-trips the types that are sent.
  pub call_registered :
      {A R : Type 0} (p : Packing Object A) (q : Packing Object R) (s : Service W)
      (h : FunctionHelper) (func : A → W → R × W) (name : Bytes) (msg_id : ℤ) (a : A) (w : W)
      → RoundTrips mp ints
      → RoundTrips mp strings
      → RoundTrips mp p
      → RoundTrips mp q
      → s.state ≡ started
      → s.has_serialer ≡ true
      → h.has_serialer ≡ true
      → contains name s.functions ≡ false
      → let s' = (register_method name (exec_result mp p q h func) s).1 in
        let (res, reply, w') = handle_data mp s' (some (request mp p name msg_id a)) [] w in
        (res ≡ success)
        × (w' ≡ (func a w).1)
        × (get_message_type mp reply ≡ message_type_replay)
        × (get_message_id mp reply ≡ msg_id)
        × (get_message_data mp q reply ≡ (func a w).0)
  call_registered p q s h func name msg_id a w int_law string_law law_p law_q st serial helper
        fresh =
      let (t, i, r) = reply_of_result mp q name msg_id (func a w).0 int_law string_law law_q in
      rw
        (handle_data-registered p q s h func name msg_id a w int_law string_law law_p st serial
          helper fresh)
        (refl, refl, t, i, r)

  -- A call of a function without a result: the service runs it once on the client's arguments, and
  -- the reply string is empty.
  pub call_void :
      {A : Type 0} (p : Packing Object A) (s : Service W) (h : FunctionHelper) (func : A → W → W)
      (name : Bytes) (msg_id : ℤ) (a : A) (w : W)
      → RoundTrips mp ints
      → RoundTrips mp strings
      → RoundTrips mp p
      → s.state ≡ started
      → s.has_serialer ≡ true
      → h.has_serialer ≡ true
      → contains name s.functions ≡ false
      → let s' = (register_method name (exec_void mp p h func) s).1 in
        handle_data mp s' (some (request mp p name msg_id a)) [] w ≡ (success, [], func a w)
  call_void p s h func name msg_id a w int_law string_law law st serial helper fresh =
      let req = request mp p name msg_id a in
      let f = exec_void mp p h func in
      let s₁ = record s { functions = insert name f s.functions } in
      let executed : f req (replied mp name msg_id) w ≡ (success, [], func a w) =
        unfold exec_void in
        rw (helper, exec_void)
          (rw (get_message_data-request mp p name msg_id a int_law string_law law)) in
      rw (register_method_fresh name f s fresh) (
        handle_data-request p s₁ name msg_id a w int_law string_law st serial
        ∙ handle_command-lookup name req (replied mp name msg_id) s₁ w (some f)
            (lookup-insert_self name f s)
        ∙ executed)

  -- A call of a name that is not registered: a started service reports a failure and leaves the
  -- world as it was, and yet its reply string is a reply under the client's message id. The
  -- client, whose `getMessageData` finds no result in it, reads the default value of the result's
  -- type. The service has its serialer, and msgpack throws at the end of the bytes.
  pub call_unknown :
      {A R : Type 0} (p : Packing Object A) (q : Packing Object R) (s : Service W) (name : Bytes)
      (msg_id : ℤ) (a : A) (w : W)
      → RoundTrips mp ints
      → RoundTrips mp strings
      → ((m : Bytes) → mp.unpack m (length m) ≡ none)
      → s.state ≡ started
      → s.has_serialer ≡ true
      → lookup name s.functions ≡ none
      → let (res, reply, w') = handle_data mp s (some (request mp p name msg_id a)) [] w in
        (res ≡ failure)
        × (w' ≡ w)
        × (get_message_type mp reply ≡ message_type_replay)
        × (get_message_id mp reply ≡ msg_id)
        × (get_message_data mp q reply ≡ q.initial)
  call_unknown p q s name msg_id a w int_law string_law ends st serial missing =
      let req = request mp p name msg_id a in
      let answered =
        handle_data-request p s name msg_id a w int_law string_law st serial
        ∙ handle_command-lookup name req (replied mp name msg_id) s w none missing in
      let (t, i, d) = reply_without_data mp q name msg_id int_law string_law ends in
      rw answered (refl, refl, t, i, d)
