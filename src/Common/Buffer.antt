-- ===== src/Common/Buffer.antt =====
-- Little-endian integers in byte buffers: what the code uses of encoding/binary's LittleEndian, of
-- `copy` and of `clear`. A write in range keeps the length of the buffer.
pub mod Laws
pub mod Slices
pub mod Digits
use gmdb.Common.Lists.{Bytes, length, take, drop, replicate}
use Prim.Native.Nat.{ℕ, zero, suc, ◌+◌, ◌*◌, ◌/◌, ◌%◌}
use mathlib.Core.List.{List, [], ◌∷◌, ◌++◌}

-- The `n` bytes of `v`, low byte first.
unfoldable pub le_bytes : ℕ → ℕ → Bytes
le_bytes zero v = []
le_bytes (suc n) v = (v % 256) ∷ le_bytes n (v / 256)

-- The number that bytes stand for, low byte first.
unfoldable pub from_le : Bytes → ℕ
from_le [] = 0
from_le (b ∷ bs) = b + 256 * from_le bs

-- `copy(buf[off:], bs)`
unfoldable pub put : ℕ → Bytes → Bytes → Bytes
put off bs buf = take off buf ++ (bs ++ drop (off + length bs) buf)

-- `buf[off:off+n]`
abbrev pub slice : ℕ → ℕ → Bytes → Bytes
slice off n buf = take n (drop off buf)

-- `le.Uint16(buf[off:])`, `le.Uint32` and `le.Uint64`
unfoldable pub get_uint16 : Bytes → ℕ → ℕ
get_uint16 buf off = from_le (slice off 2 buf)

unfoldable pub get_uint32 : Bytes → ℕ → ℕ
get_uint32 buf off = from_le (slice off 4 buf)

unfoldable pub get_uint64 : Bytes → ℕ → ℕ
get_uint64 buf off = from_le (slice off 8 buf)

-- `le.PutUint16(buf[off:], v)`, `le.PutUint32` and `le.PutUint64`
unfoldable pub put_uint16 : Bytes → ℕ → ℕ → Bytes
put_uint16 buf off v = put off (le_bytes 2 v) buf

unfoldable pub put_uint32 : Bytes → ℕ → ℕ → Bytes
put_uint32 buf off v = put off (le_bytes 4 v) buf

unfoldable pub put_uint64 : Bytes → ℕ → ℕ → Bytes
put_uint64 buf off v = put off (le_bytes 8 v) buf

-- `clear(buf[off:off+n])`
unfoldable pub clear : Bytes → ℕ → ℕ → Bytes
clear buf off n = put off (replicate n 0) buf

-- Writes one behind the other, from `off` on.
unfoldable pub put_all : ℕ → List Bytes → Bytes → Bytes
put_all off [] buf = buf
put_all off (bs ∷ parts) buf = put_all (off + length bs) parts (put off bs buf)

unfoldable pub concat : List Bytes → Bytes
concat [] = []
concat (bs ∷ parts) = bs ++ concat parts
