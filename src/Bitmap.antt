-- ===== src/Bitmap.antt =====
-- internal/bitmap/bitmap.go: the in-memory allocation bitmap. `detail` is the bytes of the on-disk
-- bitmap, `summary` has one bit for each uint64 word of it. A map[uint32]struct{} is the list of its
-- keys. `none` is a panic.
-- `num_free` is a uint64 and wraps around.
pub mod Detail
pub mod Summary
pub mod Invariant
pub mod Snapshots
pub mod Scan
pub mod Flips
use gmdb.Common.{
  ℕ, zero, suc, ◌+◌, ◌-◌, ◌*◌, ◌/◌, ◌%◌, ◌^◌, List, [], ◌∷◌, ◌++◌, Bool, true, false, not, ◌&&◌,
  ◌||◌, Bytes, Option, none, some, ltb, leb, ◌==◌, if◌then◌else◌, length, get_or, set, take, drop,
  replicate, bit_and, bit_or,
}
use gmdb.Common.Buffer.{get_uint64}
use gmdb.Common.Bits.Single.{and_not}

-- `bitmapFlip`
pub record Flip : Type 0 where
  pub page : ℕ
  pub was_set : Bool

-- `Snapshot`; `ref` is its address, by which open snapshots are told apart.
pub record Snapshot : Type 0 where
  pub ref : ℕ
  pub log_pos : ℕ
  pub hint : ℕ
  pub num_free : ℕ
  pub dirty : List ℕ

-- `Bitmap`
pub record Bitmap : Type 0 where
  pub detail : Bytes
  pub summary : List ℕ
  pub page_size : ℕ
  pub bitmap_pages : ℕ
  pub first_data_page : ℕ
  pub total_pages : ℕ
  pub num_free : ℕ
  pub hint : ℕ
  pub dirty : List ℕ
  pub undo_log : List Flip
  pub open_snapshots : List Snapshot

-- The expressions on `detail[byteIdx]` and its mask, `page >> 3` and `1 << (page & 7)`.
pub test_bit : Bytes → ℕ → Bool
test_bit detail page = not (bit_and (get_or detail (page / 8) 0) (2 ^ (page % 8)) == 0)

unfoldable pub set_bit : Bytes → ℕ → Bytes
set_bit detail page = set detail (page / 8) (bit_or (get_or detail (page / 8) 0) (2 ^ (page % 8)))

pub clear_bit : Bytes → ℕ → Bytes
clear_bit detail page =
    set detail (page / 8) (and_not (get_or detail (page / 8) 0) (2 ^ (page % 8)))

-- `readDetailWord`
unfoldable pub read_detail_word : Bytes → ℕ → ℕ
read_detail_word detail i = get_uint64 detail (i * 8)

-- `markSummary`
pub mark_summary : List ℕ → ℕ → List ℕ
mark_summary summary page =
    let word_idx = page / 64 in
    set summary (word_idx / 64) (bit_or (get_or summary (word_idx / 64) 0) (2 ^ (word_idx % 64)))

-- `unmarkSummaryIfWordZero`, on the detail after the clear.
pub unmark_summary_if_word_zero : Bytes → List ℕ → ℕ → List ℕ
unmark_summary_if_word_zero detail summary page =
    let word_idx = page / 64 in
    if read_detail_word detail word_idx == 0
    then set summary (word_idx / 64)
        (and_not (get_or summary (word_idx / 64) 0) (2 ^ (word_idx % 64)))
    else summary

-- `m[k] = struct{}{}`
pub insert_key : ℕ → List ℕ → List ℕ
insert_key k [] = k ∷ []
insert_key k (j ∷ m) = if k == j then j ∷ m else j ∷ insert_key k m

-- `markDirty`; the index is a uint32.
pub mark_dirty : Bitmap → ℕ → List ℕ
unfolding insert_key
mark_dirty b page = insert_key (page / (b.page_size * 8) % 2 ^ 32) b.dirty

-- `recordFlip`
pub record_flip : Bitmap → ℕ → Bool → List Flip
record_flip b page was_set =
    if length b.open_snapshots == 0
    then b.undo_log
    else b.undo_log ++ record { page = page; was_set = was_set } ∷ []

-- `checkAllocatable`: false is its panic.
pub allocatable : Bitmap → ℕ → Bool
allocatable b page = ltb page b.total_pages && leb b.first_data_page page

-- `IsSet`
pub is_set : Bitmap → ℕ → Bool
unfolding test_bit
is_set b page = if leb b.total_pages page then false else test_bit b.detail page

-- The state that `Set` leaves where the bit was clear.
unfoldable pub flip_up : Bitmap → ℕ → Bitmap
unfolding set_bit mark_summary mark_dirty record_flip
flip_up b page = record b {
  undo_log = record_flip b page false;
  detail = set_bit b.detail page;
  num_free = (b.num_free + 1) % 2 ^ 64;
  summary = mark_summary b.summary page;
  dirty = mark_dirty b page;
}

-- The state that `Clear` leaves where the bit was set.
pub flip_down : Bitmap → ℕ → Bitmap
unfolding clear_bit unmark_summary_if_word_zero mark_dirty record_flip
flip_down b page = record b {
  undo_log = record_flip b page true;
  detail = clear_bit b.detail page;
  num_free = (b.num_free + (2 ^ 64 - 1)) % 2 ^ 64;
  summary = unmark_summary_if_word_zero (clear_bit b.detail page) b.summary page;
  dirty = mark_dirty b page;
}

-- `Set` (free a page)
pub set_page : Bitmap → ℕ → Option Bitmap
unfolding allocatable
set_page b page =
    if not (allocatable b page)
    then none
    else if test_bit b.detail page
    then some b
    else some (flip_up b page)

-- `Clear` (allocate a page)
pub clear_page : Bitmap → ℕ → Option Bitmap
unfolding allocatable
clear_page b page =
    if not (allocatable b page)
    then none
    else if test_bit b.detail page
    then some (flip_down b page)
    else some b

-- `SetHint`
pub set_hint : Bitmap → ℕ → Bitmap
set_hint b p = record b {
  hint = if ltb p b.first_data_page || leb b.total_pages p then b.first_data_page else p;
}

-- `ClearDirty`
pub clear_dirty : Bitmap → Bitmap
clear_dirty b = if length b.dirty == 0 then b else record b { dirty = [] }

-- `undoFlip`, on the detail and the summary.
pub undo_flip : Bytes × List ℕ → Flip → Bytes × List ℕ
undo_flip (detail, summary) e =
    if e.was_set then (set_bit detail e.page, mark_summary summary e.page) else (
      clear_bit detail e.page,
      unmark_summary_if_word_zero (clear_bit detail e.page) summary e.page,
    )
