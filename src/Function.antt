-- ===== src/Function.antt =====
-- FunctionHelper: deric_rpc/function/function_helper.h. It turns a C++ function into one from the
-- request's bytes and the reply string. `A` is the tuple of the arguments and `R` the result; a
-- function may change the world `W`. The tuple is passed as it is, which stands for `callFunc`.
use deric_rpc.Prelude.{ℤ, failure, success, Bytes, [], Bool, if◌then◌else◌}
use deric_rpc.Serial.{Msgpack, Packing, get_message_data, serial_message_data}

pub record FunctionHelper : Type 0 where
  -- Whether `m_serialer` is set.
  pub has_serialer : Bool

-- ServiceInterface::ServiceFunctionType, from the request and the reply begun.
abbrev pub ServiceFunction : Type 0 → Type 0
ServiceFunction W = Bytes → Bytes → W → ℤ × Bytes × W

unfoldable pub set_serialer : Bool → FunctionHelper → ℤ × FunctionHelper
set_serialer serialer h = (success, record h { has_serialer = serialer })

module _ (mp : Msgpack) {W A R : Type 0} (args : Packing mp.Object A) where
  -- `exec` of a function with a result.
  unfoldable pub exec_result :
      Packing mp.Object R → FunctionHelper → (A → W → R × W) → ServiceFunction W
  exec_result results h func request result_string w =
      if h.has_serialer
      then (let (func_res, w') = func (get_message_data mp args request) w in
          (success, (serial_message_data mp results func_res result_string).1, w'))
      else (failure, result_string, w)

module _ (mp : Msgpack) {W A : Type 0} (args : Packing mp.Object A) where
  -- `exec` of a function without one.
  unfoldable pub exec_void : FunctionHelper → (A → W → W) → ServiceFunction W
  exec_void h func request result_string w =
      if h.has_serialer
      then (success, [], func (get_message_data mp args request) w)
      else (failure, result_string, w)

-- Member functions: `obj` is the object that the function is called on.
module _ (mp : Msgpack) {W O A : Type 0} (args : Packing mp.Object A) where
  unfoldable pub call_member_func {ℓ} : {R : Type ℓ} → (O → A → W → R) → O → Bytes → W → R
  call_member_func func obj request w = func obj (get_message_data mp args request) w

  unfoldable pub exec_member_result :
      {R : Type 0}
      → Packing mp.Object R
      → FunctionHelper
      → (O → A → W → R × W)
      → O
      → ServiceFunction W
  unfolding call_member_func
  exec_member_result results h func obj request result_string w =
      if h.has_serialer
      then (let (func_res, w') = call_member_func func obj request w in
          (success, (serial_message_data mp results func_res result_string).1, w'))
      else (failure, result_string, w)

  unfoldable pub exec_member_void : FunctionHelper → (O → A → W → W) → O → ServiceFunction W
  unfolding call_member_func
  exec_member_void h func obj request result_string w =
      if h.has_serialer
      then (success, [], call_member_func func obj request w)
      else (failure, result_string, w)
