-- ===== src/Serial.antt =====
-- RpcSerialer: deric_rpc/serial/rpc_serialer.h. The msgpack library is a parameter: it packs values
-- to bytes and unpacks one object at an offset, and it throws where it cannot, which is `none`.
pub mod Laws
use deric_rpc.Prelude.{ℕ, ℤ, failure, success, Bytes, [], ◌++◌, Option, none, some, ◌>>=◌}

-- What `msgpack::pack`, `as<T>()` and `T()` are for a type.
pub record Packing (Object T : Type 0) : Type 0 where
  pub pack : T → Bytes
  pub as_value : Object → Option T
  pub initial : T

pub record Msgpack : Type 1 where
  pub Object : Type 0
  -- The object at an offset, and the offset behind it.
  pub unpack : Bytes → ℕ → Option (Object × ℕ)
  pub ints : Packing Object ℤ
  pub strings : Packing Object Bytes

-- The value of a `try` block, or the one that its `catch (...)` returns.
abbrev pub catch_all {ℓ} : {A : Type ℓ} → Option A → A → A
catch_all none caught = caught
catch_all (some a) caught = a

module _ (mp : Msgpack) where
  open mp use {Object, unpack, ints, strings}

  -- `outString` goes through a stream, which the packed value is appended to.
  unfoldable pub serial_message_data : {T : Type 0} → Packing Object T → T → Bytes → ℤ × Bytes
  serial_message_data p t out_string = (success, out_string ++ p.pack t)

  unfoldable pub get_message_data : {T : Type 0} → Packing Object T → Bytes → T
  get_message_data p message =
      catch_all
        (do
          (_, offset₁) ← unpack message 0
          (_, offset₂) ← unpack message offset₁
          (_, offset₃) ← unpack message offset₂
          (oh, _) ← unpack message offset₃
          p.as_value oh)
        p.initial

  unfoldable pub serial_message_meta : ℤ → Bytes → ℤ → Bytes → ℤ × Bytes
  serial_message_meta msg_type msg_name msg_id out_string =
      (success, ints.pack msg_type ++ (strings.pack msg_name ++ ints.pack msg_id))

  unfoldable pub get_message_type : Bytes → ℤ
  get_message_type message = catch_all (do (oh, _) ← unpack message 0; ints.as_value oh) failure

  unfoldable pub get_message_name : Bytes → Bytes
  get_message_name message =
      catch_all
        (do (_, offset₁) ← unpack message 0; (oh, _) ← unpack message offset₁; strings.as_value oh)
        []

  unfoldable pub get_message_id : Bytes → ℤ
  get_message_id message =
      catch_all
        (do
          (_, offset₁) ← unpack message 0
          (_, offset₂) ← unpack message offset₁
          (oh, _) ← unpack message offset₂
          ints.as_value oh)
        failure
