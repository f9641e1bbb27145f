-- ===== src/Typed.antt =====
-- typed/typed_encoder.go: the column encoders whose byte order is the order of the values. An encoder that
-- never fails returns its bytes alone.
pub mod Order
use gmdb.Common.{
  ℕ, suc, ◌+◌, ◌-◌, ◌%◌, ◌^◌, ◌++◌, Bytes, Result, ok, err, ltb, ◌==◌, not, if◌then◌else◌, length,
  bit_xor,
}
use gmdb.Common.BigEndian.{be_bytes, from_be}
use gmdb.Common.Integers.{ℤ, pos, negsuc}

-- `errDecode`: the length and the one wanted.
pub data DecodeError : Type 0 where
  bad_length : ℕ → ℕ → DecodeError

-- `StringEncoder` and `BytesEncoder`
unfoldable pub append_bytes : Bytes → Bytes → Bytes
append_bytes dst v = dst ++ v

unfoldable pub decode_bytes : Bytes → Result DecodeError Bytes
decode_bytes src = ok src

-- `Uint64Encoder`
unfoldable pub append_uint64 : Bytes → ℕ → Bytes
append_uint64 dst v = dst ++ be_bytes 8 v

unfoldable pub decode_uint64 : Bytes → Result DecodeError ℕ
decode_uint64 src =
    if not (length src == 8) then err (bad_length (length src) 8) else ok (from_be src)

-- `Uint32Encoder`
unfoldable pub append_uint32 : Bytes → ℕ → Bytes
append_uint32 dst v = dst ++ be_bytes 4 v

unfoldable pub decode_uint32 : Bytes → Result DecodeError ℕ
decode_uint32 src =
    if not (length src == 4) then err (bad_length (length src) 4) else ok (from_be src)

abbrev pub sign_bit64 : ℕ
sign_bit64 = 2 ^ 63

abbrev pub sign_bit32 : ℕ
sign_bit32 = 2 ^ 31

-- Go's conversions between integers and words of `suc top` bits, in two's complement.
unfoldable pub word_of : ℕ → ℤ → ℕ
word_of top (pos n) = n % 2 ^ suc top
word_of top (negsuc n) = 2 ^ suc top - 1 - n % 2 ^ suc top

unfoldable pub int_of : ℕ → ℕ → ℤ
int_of top x = if ltb x (2 ^ top) then pos x else negsuc (2 ^ suc top - 1 - x)

-- `Int64Encoder`
unfoldable pub append_int64 : Bytes → ℤ → Bytes
unfolding word_of
append_int64 dst v = dst ++ be_bytes 8 (bit_xor (word_of 63 v) sign_bit64)

unfoldable pub decode_int64 : Bytes → Result DecodeError ℤ
unfolding int_of
decode_int64 src =
    if not (length src == 8)
    then err (bad_length (length src) 8)
    else ok (int_of 63 (bit_xor (from_be src) sign_bit64))

-- `Int32Encoder`
unfoldable pub append_int32 : Bytes → ℤ → Bytes
unfolding word_of
append_int32 dst v = dst ++ be_bytes 4 (bit_xor (word_of 31 v) sign_bit32)

unfoldable pub decode_int32 : Bytes → Result DecodeError ℤ
unfolding int_of
decode_int32 src =
    if not (length src == 4)
    then err (bad_length (length src) 4)
    else ok (int_of 31 (bit_xor (from_be src) sign_bit32))

-- `UUIDv4Encoder` and `UUIDv7Encoder`; a UUID is 16 bytes.
unfoldable pub append_uuid : Bytes → Bytes → Bytes
append_uuid dst v = dst ++ v

unfoldable pub decode_uuid : Bytes → Result DecodeError Bytes
decode_uuid src = if not (length src == 16) then err (bad_length (length src) 16) else ok src
