-- ===== src/Page/Subpage/Edit.antt =====
-- internal/page/subpage.go: Search, Insert, Delete and EncodeSubpage.
use gmdb.Common.{
  ℕ, zero, suc, ◌+◌, ◌-◌, ◌*◌, ◌/◌, ◌%◌, ◌^◌, List, [], ◌∷◌, Bool, true, false, not, ◌||◌, Bytes,
  Option, none, some, Result, ok, ltb, leb, ◌==◌, if◌then◌else◌, length, replicate, ◌>>=◌, ◌>>◌,
  guard,
}
use gmdb.Common.Buffer.{put, put_uint16}
use gmdb.Common.Order.{compare_bytes}
use gmdb.Page.Config.{Config, header_size, must_validate, content_end}
use gmdb.Page.Subpage.{
  Fault, corrupted, value_size, panicked, SubpageReader, subpage_header_size, sub_off_count,
  sub_off_data_size, max_subpage_data_size, size_bytes, slice_of, uint16_of, entry_offset, behind,
  reader_buf,
}
use Prim.Native.Nat.{Ordering}

-- The binary search of `Search` over [lo, hi), on fuel.
unfoldable pub search_fixed : Bytes → ℕ → Bytes → ℕ → ℕ → ℕ → Result Fault (ℕ × Bool)
unfolding slice_of
search_fixed buf stride target zero lo hi = ok (lo, false)
search_fixed buf stride target (suc fuel) lo hi =
    let mid = (lo + hi) / 2 in
    let off = subpage_header_size + mid * stride in
    if ltb lo hi
    then (slice_of buf off (off + stride) >>= λ cur. elim (compare_bytes cur target) [
      | Ordering.eq ↦ ok (mid, true)
      | Ordering.lt ↦ search_fixed buf stride target fuel (mid + 1) hi
      | Ordering.gt ↦ search_fixed buf stride target fuel lo mid
    ])
    else ok (lo, false)

-- The linear scan of `Search`: `n` entries from the index `i`, at `off`, on.
unfoldable pub search_variable : Bytes → Bytes → ℕ → ℕ → ℕ → Result Fault (ℕ × Bool)
unfolding uint16_of slice_of
search_variable buf target zero i off = ok (i, false)
search_variable buf target (suc n) i off = do
  vl ← uint16_of buf off
  cur ← slice_of buf (off + 2) (off + 2 + vl)
  elim (compare_bytes cur target) [
    | Ordering.eq ↦ ok (i, true)
    | Ordering.gt ↦ ok (i, false)
    | Ordering.lt ↦ search_variable buf target n (i + 1) (off + 2 + vl)
  ]

-- `Search`; the binary search halves its range, so that a unit of fuel for each entry is enough.
unfoldable pub search : SubpageReader → Bytes → Result Fault (ℕ × Bool)
unfolding search_fixed search_variable
search r target =
    if r.count == 0
    then ok (0, false)
    else if not (r.fixed_value_size == 0)
    then search_fixed r.buf r.fixed_value_size target r.count 0 r.count
    else search_variable r.buf target r.count 0 subpage_header_size

-- `subpageEntrySize` and `writeSubpageEntry`, which writes behind an offset.
unfoldable pub subpage_entry_size : Bytes → ℕ → ℕ
subpage_entry_size value fixed = if not (fixed == 0) then fixed else 2 + length value

unfoldable pub write_subpage_entry : Bytes → ℕ → Bytes → ℕ → Bytes
write_subpage_entry buf off value fixed =
    if not (fixed == 0)
    then put off value buf
    else put (off + 2) value (put_uint16 buf off (length value % 2 ^ 16))

-- The fixed-size test of `Insert` and `Delete`.
unfoldable pub value_fits : SubpageReader → Bytes → Bool
value_fits r value = r.fixed_value_size == 0 || length value == r.fixed_value_size

-- The splice of `Insert` at an index.
unfoldable pub insert_at : SubpageReader → Bytes → ℕ → Result Fault (Bytes × Bool)
unfolding subpage_entry_size write_subpage_entry entry_offset slice_of size_bytes
insert_at r value idx =
    let entry_bytes = subpage_entry_size value r.fixed_value_size in
    do
      guard (leb (r.count + 1) (2 ^ 16 - 1)) corrupted
      guard (leb (r.data_size + entry_bytes) max_subpage_data_size) corrupted
      off ← entry_offset r idx
      head ← slice_of r.buf 0 off
      tail ← slice_of r.buf off (size_bytes r)
      let buf = put 0 head (replicate (size_bytes r + entry_bytes) 0)
      let buf = write_subpage_entry buf off value r.fixed_value_size
      let buf = put (off + entry_bytes) tail buf
      let buf = put_uint16 buf sub_off_count ((r.count + 1) % 2 ^ 16)
      ok (put_uint16 buf sub_off_data_size ((r.data_size + entry_bytes) % 2 ^ 16), true)

-- `Insert`
unfoldable pub insert : SubpageReader → Bytes → Result Fault (Bytes × Bool)
unfolding value_fits search insert_at reader_buf
insert r value = do
  guard (value_fits r value) value_size
  (idx, found) ← search r value
  if found then (reader_buf r >>= λ buf. ok (buf, false)) else insert_at r value idx

-- The splice of `Delete` at an index; the size is of the value that is there.
unfoldable pub delete_entry : SubpageReader → Bytes → ℕ → Result Fault (Bytes × Bool)
unfolding subpage_entry_size entry_offset slice_of size_bytes
delete_entry r value idx =
    let entry_bytes = subpage_entry_size value r.fixed_value_size in
    do
      off ← entry_offset r idx
      guard (leb entry_bytes (size_bytes r)) panicked
      head ← slice_of r.buf 0 off
      tail ← slice_of r.buf (off + entry_bytes) (size_bytes r)
      let buf = put 0 head (replicate (size_bytes r - entry_bytes) 0)
      let buf = put off tail buf
      let buf = put_uint16 buf sub_off_count ((r.count - 1) % 2 ^ 16)
      ok (put_uint16 buf sub_off_data_size ((r.data_size - entry_bytes) % 2 ^ 16), true)

-- `Delete`
unfoldable pub delete : SubpageReader → Bytes → Result Fault (Bytes × Bool)
unfolding value_fits search delete_entry reader_buf
delete r value = do
  guard (value_fits r value) value_size
  (idx, found) ← search r value
  if found then delete_entry r value idx else (reader_buf r >>= λ buf. ok (buf, false))

-- The checks of `EncodeSubpage` and its sum of the entry sizes.
unfoldable pub measure : ℕ → Option Bytes → List Bytes → ℕ → Result Fault ℕ
unfolding subpage_entry_size behind
measure fixed prev [] size = ok size
measure fixed prev (v ∷ values) size = do
  guard (fixed == 0 || length v == fixed) value_size
  behind prev v
  measure fixed (some v) values (size + subpage_entry_size v fixed)

-- The last loop of `EncodeSubpage`.
unfoldable pub write_entries : ℕ → List Bytes → ℕ → Bytes → Bytes
unfolding write_subpage_entry subpage_entry_size
write_entries fixed [] off buf = buf
write_entries fixed (v ∷ values) off buf =
    write_entries fixed values (off + subpage_entry_size v fixed)
      (write_subpage_entry buf off v fixed)

-- `EncodeSubpage`
unfoldable pub encode_subpage : List Bytes → ℕ → Result Fault Bytes
unfolding measure write_entries
encode_subpage values fixed = do
  data_size ← measure fixed none values 0
  guard (leb data_size max_subpage_data_size) corrupted
  guard (leb (length values) (2 ^ 16 - 1)) corrupted
  let buf =
      put_uint16 (replicate (subpage_header_size + data_size) 0) sub_off_count
        (length values % 2 ^ 16)
  ok (
      write_entries fixed values subpage_header_size
        (put_uint16 buf sub_off_data_size (data_size % 2 ^ 16)))

-- `SubpagePromotionThreshold`; on ints the difference may be negative, and the result is then 0.
unfoldable pub subpage_promotion_threshold : Config → Option ℕ
unfolding must_validate content_end
subpage_promotion_threshold cfg =
    must_validate cfg (some ((content_end cfg - header_size - 4 - 4) / 2))
