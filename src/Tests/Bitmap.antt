-- ===== src/Tests/Bitmap.antt =====
-- internal/bitmap at concrete inputs.
use gmdb.Common.{
  ℕ, ◌≤◌, ◌==◌, if◌then◌else◌, ◌≢◌, ◌⊎◌, none, max, min, AllBytes, zero, suc, ◌*◌, ◌/◌, ◌%◌, [],
  true, false, some, ◌≡◌, refl, arith, replicate, take, get_or,
}
use gmdb.Common.Bits.Single.{has_bit-zero}
use gmdb.Common.Buffer.{from_le, slice, get_uint64}
use gmdb.Bitmap.{
  Bitmap, is_set, allocatable, set_page, clear_page, flip_up, set_bit, read_detail_word,
}
use gmdb.Bitmap.Invariant.{IsValid, flip_up-IsValid}
use gmdb.Bitmap.Flips.{set_page-is_set, clear_page-is_set}
use gmdb.Bitmap.Scan.{find_first, find_first_below_from}
use gmdb.Bitmap.Scan.Lowest.{NoneFree, LowestFree}
use gmdb.Bitmap.Scan.Forward.{find_first-LowestFree, find_first_below_from-LowestFree}
use gmdb.Bitmap.Summary.{SummaryExact}
use gmdb.Bitmap.Snapshots.{open_snapshot, restore}
use gmdb.Bitmap.Snapshots.Scopes.{
  Steps, free, allocate, move_hint, reset_dirty, child, done, next, fresh_ref, run,
}
use gmdb.Bitmap.Snapshots.Rollback.{restore-run}

take_zeros : (n k : ℕ) → from_le (take n (replicate k 0)) ≡ 0
unfolding from_le
take_zeros zero k = refl
take_zeros (suc n) zero = refl
take_zeros (suc n) (suc k) = omega (arith, take_zeros n k)

slice_zeros : (off n k : ℕ) → from_le (slice off n (replicate k 0)) ≡ 0
slice_zeros zero n k = take_zeros n k
slice_zeros (suc off) n zero = unfold from_le in take_zeros n 0
slice_zeros (suc off) n (suc k) = slice_zeros off n k

get_zeros : (i k : ℕ) → ◌≡◌ {A = ℕ} (get_or (replicate k 0) i 0) 0
get_zeros i zero = refl
get_zeros zero (suc k) = refl
get_zeros (suc i) (suc k) = get_zeros i k

-- 128 pages, all in use, of which the first four hold the meta pages and the bitmap.
abbrev full : Bitmap
full = record {
  detail = replicate 16 0;
  summary = replicate 1 0;
  page_size = 4096;
  bitmap_pages = 2;
  first_data_page = 4;
  total_pages = 128;
  num_free = 0;
  hint = 4;
  dirty = [];
  undo_log = [];
  open_snapshots = [];
}

zeros-SummaryExact : (k l : ℕ) → SummaryExact (replicate k 0) (replicate l 0)
unfolding read_detail_word get_uint64
zeros-SummaryExact k l w =
    rw (get_zeros (w / 64) l, slice_zeros (w * 8) 8 k) (has_bit-zero (w % 64))

full-IsValid : IsValid full
full-IsValid = record {
  capacity = omega arith;
  summary_size = omega arith;
  exact = zeros-SummaryExact 16 1;
}

abbrev work : Steps
work = next (free 9) (
    next (child true (next (free 70) (next (allocate 9) done)))
      (next (child false (next (free 5) done)) (next (move_hint 70) (next reset_dirty done))))

restore-run_example :
    (c : Bitmap) × (run work (open_snapshot (fresh_ref full.open_snapshots) full).1 ≡ some c)
    × (restore c (open_snapshot (fresh_ref full.open_snapshots) full).0 ≡ some full)
restore-run_example = restore-run full work full-IsValid (omega arith)

-- The bitmap in which page 70 is free.
abbrev one_free : Bitmap
one_free = flip_up full 70

one_free-IsValid : IsValid one_free
one_free-IsValid = flip_up-IsValid full 70 full-IsValid (omega arith, omega arith)

one_free-AllBytes : AllBytes one_free.detail
unfolding flip_up set_bit
one_free-AllBytes = ground arith

one_free-hint : (one_free.first_data_page ≤ one_free.hint) × (one_free.hint ≤ one_free.total_pages)
unfolding flip_up
one_free-hint = (omega arith, omega arith)

find_first_below_from-LowestFree_example :
    LowestFree one_free.detail
      (max 5 one_free.first_data_page)
      (min 100 one_free.total_pages)
      (find_first_below_from one_free 5 100)
find_first_below_from-LowestFree_example =
    find_first_below_from-LowestFree one_free 5 100 one_free-IsValid one_free-AllBytes

find_first-LowestFree_example :
    ((one_free.num_free ≡ 0) × (find_first one_free ≡ none))
    ⊎ ((one_free.num_free ≢ 0)
        × (((find_first one_free ≢ none)
              × LowestFree one_free.detail one_free.hint one_free.total_pages (find_first one_free))
            ⊎ (NoneFree one_free.detail one_free.hint one_free.total_pages
                × LowestFree one_free.detail one_free.first_data_page one_free.hint
                    (find_first one_free))))
find_first-LowestFree_example =
    find_first-LowestFree one_free one_free-IsValid one_free-AllBytes one_free-hint.0
      one_free-hint.1

set_page-is_set_example :
    ((allocatable full 70 ≡ false) × (set_page full 70 ≡ none))
    ⊎ ((allocatable full 70 ≡ true)
        × ((c : Bitmap) × (set_page full 70 ≡ some c)
            × IsValid c
            × ((q : ℕ) → is_set c q ≡ (if 70 == q then true else is_set full q))))
set_page-is_set_example = set_page-is_set full 70 full-IsValid

clear_page-is_set_example :
    ((allocatable one_free 70 ≡ false) × (clear_page one_free 70 ≡ none))
    ⊎ ((allocatable one_free 70 ≡ true)
        × ((c : Bitmap) × (clear_page one_free 70 ≡ some c)
            × IsValid c
            × ((q : ℕ) → is_set c q ≡ (if 70 == q then false else is_set one_free q))))
clear_page-is_set_example = clear_page-is_set one_free 70 one_free-IsValid
