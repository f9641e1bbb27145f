-- ===== src/Bitmap/Invariant.antt =====
-- What holds of every bitmap between operations, and what each operation of internal/bitmap/bitmap.go
-- does to the pages.
use gmdb.Common.{ℕ, ◌*◌, ◌≤◌, ◌<◌, true, length, ◌≡◌, arith}
use gmdb.Bitmap.{Bitmap, test_bit, clear_bit, flip_up, flip_down, allocatable}
use gmdb.Bitmap.Detail.{length-set_bit, length-clear_bit}
use gmdb.Bitmap.Summary.{
  InRange, SummaryExact, set_bit-SummaryExact, clear_bit-SummaryExact, length-mark_summary,
  length-unmark_summary,
}

-- The detail has a bit for each page, the summary a bit for each word, and it is exact.
pub record IsValid (b : Bitmap) : Type 0 where
  pub capacity : b.total_pages ≤ length b.detail * 8
  pub summary_size : length b.detail ≤ length b.summary * 512
  pub exact : SummaryExact b.detail b.summary

pub IsValid-InRange :
    (b : Bitmap) (p : ℕ) → IsValid b → allocatable b p ≡ true → InRange b.detail b.summary p
unfolding allocatable
IsValid-InRange b p v h =
    let below : p < b.total_pages = ground arith in
    let cap : b.total_pages ≤ length b.detail * 8 = v.capacity in
    let words : length b.detail ≤ length b.summary * 512 = v.summary_size in
    (omega arith, omega arith)

pub flip_up-IsValid :
    (b : Bitmap) (p : ℕ) → IsValid b → InRange b.detail b.summary p → IsValid (flip_up b p)
unfolding flip_up
flip_up-IsValid b p v r = record {
  capacity = rw (length-set_bit b.detail p) v.capacity;
  summary_size = rw (length-set_bit b.detail p, length-mark_summary b.summary p) v.summary_size;
  exact = set_bit-SummaryExact b.detail b.summary p r v.exact;
}

pub flip_down-IsValid :
    (b : Bitmap) (p : ℕ)
    → IsValid b
    → InRange b.detail b.summary p
    → test_bit b.detail p ≡ true
    → IsValid (flip_down b p)
unfolding flip_down
flip_down-IsValid b p v r t = record {
  capacity = rw (length-clear_bit b.detail p) v.capacity;
  summary_size =
      rw (length-clear_bit b.detail p, length-unmark_summary (clear_bit b.detail p) b.summary p)
        v.summary_size;
  exact = clear_bit-SummaryExact b.detail b.summary p r t v.exact;
}
