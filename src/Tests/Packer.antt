-- ===== src/Tests/Packer.antt =====
-- A small packing library in the place of msgpack: an object is its length and then its bytes.
use deric_rpc.Prelude.{
  ℕ, zero, suc, ◌+◌, ℤ, pos, negsuc, Bytes, length, take, drop, leb, [], ◌∷◌, ◌++◌, ◌≡◌, refl,
  Option, none, some, arith, if◌then◌else◌, length-append, take-append, drop-append, drop-all,
}
use deric_rpc.Serial.{Msgpack, Packing}
use deric_rpc.Serial.Laws.{RoundTrips}

unfoldable pub unpack_front : Bytes → ℕ → Option (Bytes × ℕ)
unpack_front [] offset = none
unpack_front (n ∷ rest) offset =
    if leb n (length rest) then some (take n rest, offset + suc n) else none

abbrev pub unpack_sized : Bytes → ℕ → Option (Bytes × ℕ)
unfolding unpack_front
unpack_sized m offset = unpack_front (drop offset m) offset

abbrev pub sized : Bytes → Bytes
sized payload = length payload ∷ payload

abbrev pub int_bytes : ℤ → Bytes
int_bytes (pos n) = 0 ∷ n ∷ []
int_bytes (negsuc n) = 1 ∷ n ∷ []

abbrev pub bytes_int : Bytes → Option ℤ
bytes_int (zero ∷ n ∷ []) = some (pos n)
bytes_int (suc zero ∷ n ∷ []) = some (negsuc n)
bytes_int _ = none

abbrev pub sized_ints : Packing Bytes ℤ
sized_ints = record { pack = λ i. sized (int_bytes i); as_value = bytes_int; initial = pos 0 }

abbrev pub sized_strings : Packing Bytes Bytes
sized_strings = record { pack = sized; as_value = some; initial = [] }

abbrev pub packer : Msgpack
packer = record {
  Object = Bytes;
  unpack = unpack_sized;
  ints = sized_ints;
  strings = sized_strings;
}

pub unpack-sized :
    (before payload after : Bytes)
    → unpack_sized (before ++ (sized payload ++ after)) (length before)
      ≡ some (payload, length before + length (sized payload))
unfolding unpack_front
unpack-sized before payload after = ground (
  arith,
  drop-append before (sized payload ++ after),
  length-append payload after,
  take-append payload after,
)

bytes_int-int_bytes : (i : ℤ) → bytes_int (int_bytes i) ≡ some i
bytes_int-int_bytes (pos n) = refl
bytes_int-int_bytes (negsuc n) = refl

pub sized_ints-RoundTrips : RoundTrips packer sized_ints
sized_ints-RoundTrips = record {
  unpacked = λ before after i.
      (int_bytes i, unpack-sized before (int_bytes i) after, bytes_int-int_bytes i);
}

pub sized_strings-RoundTrips : RoundTrips packer sized_strings
sized_strings-RoundTrips = record {
  unpacked = λ before after s. (s, unpack-sized before s after, refl);
}

pub unpack_sized-end : (m : Bytes) → unpack_sized m (length m) ≡ none
unfolding unpack_front
unpack_sized-end m = rw (drop-all (length m) m (omega arith))
