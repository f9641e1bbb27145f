-- ===== src/Page/Subpage.antt =====
-- internal/page/subpage.go: a key's sorted set of values inside a leaf cell. A panic is the error
-- `panicked`; the capacity of a buffer is its length.
pub mod Edit
pub mod Image
pub mod Sorted
pub mod Search
pub mod Splice
pub mod Remove
pub mod Refines
pub mod Sets
pub mod Membership
pub mod RoundTrip
pub mod Accepted
pub mod Reads
pub mod Sound
use gmdb.Common.{
  ℕ, zero, suc, ◌+◌, ◌-◌, ◌*◌, ◌/◌, ◌%◌, ◌^◌, List, [], ◌∷◌, ◌++◌, Bool, true, false, not, ◌&&◌,
  ◌||◌, Bytes, Option, none, some, Result, ok, err, ltb, leb, ◌==◌, if◌then◌else◌, length,
  replicate, ◌>>=◌, ◌>>◌, guard,
}
use gmdb.Common.Buffer.{get_uint16, put, put_uint16, slice}
use gmdb.Common.Order.{compare_bytes}
use gmdb.Page.Config.{Config, header_size, must_validate, content_end}
use Prim.Native.Nat.{Ordering}

abbrev pub subpage_header_size : ℕ
subpage_header_size = 4

abbrev pub sub_off_count : ℕ
sub_off_count = 0

abbrev pub sub_off_data_size : ℕ
sub_off_data_size = 2

abbrev pub max_subpage_data_size : ℕ
max_subpage_data_size = 2 ^ 16 - 1

-- The errors that wrap `ErrSubpageCorrupted`, `ErrSubpageValueSize`, and a panic.
pub data Fault : Type 0 where
  corrupted value_size panicked : Fault

-- `SubpageReader`
pub record SubpageReader : Type 0 where
  pub buf : Bytes
  pub count : ℕ
  pub data_size : ℕ
  pub fixed_value_size : ℕ

-- `NewSubpageReader`
unfoldable pub new_subpage_reader : Bytes → ℕ → Result Fault SubpageReader
new_subpage_reader buf fixed =
    if ltb (length buf) subpage_header_size
    then err panicked
    else ok (record {
      buf = buf;
      count = get_uint16 buf sub_off_count;
      data_size = get_uint16 buf sub_off_data_size;
      fixed_value_size = fixed;
    })

-- `SizeBytes`
unfoldable pub size_bytes : SubpageReader → ℕ
size_bytes r = subpage_header_size + r.data_size

-- `buf[lo:hi]` and `le.Uint16(buf[off:])`
unfoldable pub slice_of : Bytes → ℕ → ℕ → Result Fault Bytes
slice_of buf lo hi =
    if leb lo hi && leb hi (length buf) then ok (slice lo (hi - lo) buf) else err panicked

unfoldable pub uint16_of : Bytes → ℕ → Result Fault ℕ
uint16_of buf off = if leb (off + 2) (length buf) then ok (get_uint16 buf off) else err panicked

-- `Buf`
pub reader_buf : SubpageReader → Result Fault Bytes
unfolding slice_of size_bytes
reader_buf r = slice_of r.buf 0 (size_bytes r)

-- The test that an entry sorts behind the one before it.
unfoldable pub in_order : Bytes → Bytes → Result Fault (Unit {0})
in_order prev cur = elim (compare_bytes prev cur) [ Ordering.lt ↦ ok tt | _ ↦ err corrupted ]

-- The loop of `Validate` over fixed-size entries: `n` of them, from the entry at `off` on.
unfoldable pub validate_fixed : Bytes → ℕ → ℕ → ℕ → Result Fault (Unit {0})
unfolding slice_of in_order
validate_fixed buf stride zero off = ok tt
validate_fixed buf stride (suc n) off = do
  prev ← slice_of buf (off - stride) off
  cur ← slice_of buf off (off + stride)
  in_order prev cur
  validate_fixed buf stride n (off + stride)

-- The first entry has none before it.
unfoldable pub behind : Option Bytes → Bytes → Result Fault (Unit {0})
unfolding in_order
behind none cur = ok tt
behind (some prev) cur = in_order prev cur

-- The loop of `Validate` over variable-size entries, and the test behind it.
unfoldable pub validate_variable : Bytes → ℕ → ℕ → ℕ → Option Bytes → Result Fault (Unit {0})
unfolding slice_of uint16_of behind
validate_variable buf end zero off prev = guard (off == end) corrupted
validate_variable buf end (suc n) off prev = do
  guard (leb (off + 2) end) corrupted
  vl ← uint16_of buf off
  guard (leb (off + 2 + vl) end) corrupted
  cur ← slice_of buf (off + 2) (off + 2 + vl)
  behind prev cur
  validate_variable buf end n (off + 2 + vl) (some cur)

-- `Validate` behind its first two tests.
unfoldable pub validate_entries : SubpageReader → Result Fault (Unit {0})
unfolding validate_fixed validate_variable
validate_entries r =
    let stride = r.fixed_value_size in
    if r.count == 0
    then guard (r.data_size == 0) corrupted
    else if not (stride == 0)
    then (guard (r.count * stride == r.data_size) corrupted
        >> validate_fixed r.buf stride (r.count - 1) (subpage_header_size + stride))
    else validate_variable r.buf (subpage_header_size + r.data_size) r.count subpage_header_size
        none

-- `Validate`
unfoldable pub validate : SubpageReader → Result Fault (Unit {0})
unfolding size_bytes validate_entries
validate r = do
  guard (leb (size_bytes r) (length r.buf)) corrupted
  guard (leb r.data_size max_subpage_data_size) corrupted
  validate_entries r

-- The walk over `n` variable-size entries.
unfoldable pub skip_entries : Bytes → ℕ → ℕ → Result Fault ℕ
unfolding uint16_of
skip_entries buf zero off = ok off
skip_entries buf (suc n) off = do vl ← uint16_of buf off; skip_entries buf n (off + 2 + vl)

-- `entryOffset`
unfoldable pub entry_offset : SubpageReader → ℕ → Result Fault ℕ
unfolding skip_entries
entry_offset r idx =
    if not (r.fixed_value_size == 0)
    then ok (subpage_header_size + idx * r.fixed_value_size)
    else skip_entries r.buf idx subpage_header_size

-- The variable-size entry at an offset.
unfoldable pub variable_value : Bytes → ℕ → Result Fault Bytes
unfolding uint16_of slice_of
variable_value buf off = do vl ← uint16_of buf off; slice_of buf (off + 2) (off + 2 + vl)

-- `ValueAt`
unfoldable pub value_at : SubpageReader → ℕ → Result Fault Bytes
unfolding slice_of skip_entries variable_value
value_at r idx =
    if leb r.count idx
    then err panicked
    else if not (r.fixed_value_size == 0)
    then (let off = subpage_header_size + idx * r.fixed_value_size in
        slice_of r.buf off (off + r.fixed_value_size))
    else (skip_entries r.buf idx subpage_header_size >>= variable_value r.buf)

-- `AllValues` with a yield that returns true each time: the values in its order.
unfoldable pub variable_values : Bytes → ℕ → ℕ → Result Fault (List Bytes)
unfolding uint16_of slice_of
variable_values buf zero off = ok []
variable_values buf (suc n) off = do
  vl ← uint16_of buf off
  cur ← slice_of buf (off + 2) (off + 2 + vl)
  more ← variable_values buf n (off + 2 + vl)
  ok (cur ∷ more)

unfoldable pub fixed_values : Bytes → ℕ → ℕ → ℕ → Result Fault (List Bytes)
unfolding slice_of
fixed_values buf stride zero off = ok []
fixed_values buf stride (suc n) off = do
  cur ← slice_of buf off (off + stride)
  more ← fixed_values buf stride n (off + stride)
  ok (cur ∷ more)

unfoldable pub all_values : SubpageReader → Result Fault (List Bytes)
unfolding variable_values fixed_values
all_values r =
    if not (r.fixed_value_size == 0)
    then fixed_values r.buf r.fixed_value_size r.count subpage_header_size
    else variable_values r.buf r.count subpage_header_size
