-- ===== src/Wire/Header.antt =====
-- TcpHeader_s of deric_rpc/io/include/tcp_io_connection.h, with its two methods of
-- deric_rpc/io/src/tcp_io_connection.cpp. A null pointer, and a buffer too short for what is read
-- or written, give `none`: the source logs them and then accesses the memory all the same.
use deric_rpc.Prelude.{ℕ, ◌<◌, ◌^◌, ◌≡◌, ◌∷◌, ◌++◌, Option, none, some, arith, Bytes, drop, ◌>>=◌}
use deric_rpc.Wire.Uint32.{get_uint32_from_chars, set_uint32_to_chars, get_uint32-set_uint32}

pub record TcpHeader : Type 0 where
  pub magic : ℕ
  pub message_len : ℕ

abbrev pub tcp_header_magic : ℕ
tcp_header_magic = 0x01

abbrev pub tcp_header_offset_message_len : ℕ
tcp_header_offset_message_len = 1

abbrev pub tcp_header_size : ℕ
tcp_header_size = 5

-- `magic` is set to the constant, and the first byte of the data is not read.
unfoldable pub deserialer_from : Option Bytes → Option TcpHeader
deserialer_from none = none
deserialer_from (some data_bytes) = do
  len ← get_uint32_from_chars (drop tcp_header_offset_message_len data_bytes)
  some (record { magic = tcp_header_magic; message_len = len })

-- The buffer with its first five bytes overwritten.
unfoldable pub serialer_to : TcpHeader → Option Bytes → Option Bytes
serialer_to h none = none
serialer_to h (some (_ ∷ _ ∷ _ ∷ _ ∷ _ ∷ rest)) =
    some (tcp_header_magic ∷ (set_uint32_to_chars h.message_len ++ rest))
serialer_to h (some _) = none

-- A header that was written is read back, whatever the buffer held and whatever follows it.
pub deserialer_from-serialer_to :
    (h : TcpHeader) (buffer : Bytes) {out : Bytes}
    → h.message_len < 2 ^ 32
    → serialer_to h (some buffer) ≡ some out
    → deserialer_from (some out)
      ≡ some (record { magic = tcp_header_magic; message_len = h.message_len })
unfolding serialer_to deserialer_from
deserialer_from-serialer_to h (_ ∷ _ ∷ _ ∷ _ ∷ _ ∷ rest) small e =
    ground (arith, get_uint32-set_uint32 h.message_len rest)
deserialer_from-serialer_to h _ small e = cc
