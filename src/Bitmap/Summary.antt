-- ===== src/Bitmap/Summary.antt =====
-- The summary against the detail: one summary bit for each word that is not 0
-- (internal/bitmap/bitmap.go, markSummary, unmarkSummaryIfWordZero).
use gmdb.Common.{
  ℕ, ◌+◌, ◌*◌, ◌/◌, ◌%◌, ◌^◌, ◌<◌, List, true, not, Bytes, ◌==◌, length, get_or, set, length-set,
  ◌≡◌, ◌≢◌, ap, arith, Bool-cases, inl, inr,
}
use gmdb.Common.Bits.Single.{has_bit, has_bit-zero, and_not}
use gmdb.Common.Bits.Words.{
  not_bit-or_bit, or_bit-not_bit, or_bit_same, has_bit-or_bit, has_bit-not_bit,
}
use native.Mathlib.Decide.{dec_lt, ℕ_discrete}
use gmdb.Common.Buffer.{slice, from_le, get_uint64}
use gmdb.Common.Buffer.Slices.{slice-set_after, slice-set_before, from_le-slice_pos}
use gmdb.Bitmap.{
  test_bit, set_bit, clear_bit, read_detail_word, mark_summary, unmark_summary_if_word_zero,
}
use gmdb.Bitmap.Detail.{test_bit-has_bit, test_bit-set_bit}

-- A page and its word lie inside the detail and the summary.
abbrev pub InRange : Bytes → List ℕ → ℕ → Type 0
InRange detail summary p = (p / 8 < length detail) × (p / 64 / 64 < length summary)

-- The summary bit of every word tells whether the word has a set bit.
abbrev pub SummaryExact : Bytes → List ℕ → Type 0
SummaryExact detail summary =
    (w : ℕ) → has_bit (get_or summary (w / 64) 0) (w % 64) ≡ not (read_detail_word detail w == 0)

test_bit_ne_zero : (detail : Bytes) (p : ℕ) → test_bit detail p ≡ true → get_or detail (p / 8) 0 ≢ 0
test_bit_ne_zero detail p h e = ground (arith, test_bit-has_bit detail p, has_bit-zero (p % 8))

-- The word of a set bit is not 0.
pub word_ne_zero :
    (detail : Bytes) (p : ℕ) → test_bit detail p ≡ true → read_detail_word detail (p / 64) ≢ 0
unfolding read_detail_word get_uint64
word_ne_zero detail p h =
    let place : p / 64 * 8 + p / 8 % 8 ≡ p / 8 = omega arith in
    from_le-slice_pos (p / 64 * 8) 8 (p / 8 % 8) detail (omega arith)
      (rw place (test_bit_ne_zero detail p h))

slice-set_word :
    (detail : Bytes) (p w v : ℕ)
    → p / 64 ≢ w
    → slice (w * 8) 8 (set detail (p / 8) v) ≡ slice (w * 8) 8 detail
slice-set_word detail p w v h = elim (dec_lt (p / 8) (w * 8)) [
  | yes before ↦ slice-set_before (w * 8) 8 (p / 8) v detail before
  | no behind ↦ slice-set_after (w * 8) 8 (p / 8) v detail (omega arith)
]

-- Flips in one word leave the others.
pub word-set_bit :
    (detail : Bytes) (p w : ℕ)
    → p / 64 ≢ w
    → read_detail_word (set_bit detail p) w ≡ read_detail_word detail w
unfolding read_detail_word get_uint64 set_bit
word-set_bit detail p w h = ap from_le (slice-set_word detail p w _ h)

pub word-clear_bit :
    (detail : Bytes) (p w : ℕ)
    → p / 64 ≢ w
    → read_detail_word (clear_bit detail p) w ≡ read_detail_word detail w
unfolding read_detail_word get_uint64 clear_bit
word-clear_bit detail p w h = ap from_le (slice-set_word detail p w _ h)

test_bit-set_bit_self :
    (detail : Bytes) (p : ℕ) → p / 8 < length detail → test_bit (set_bit detail p) p ≡ true
test_bit-set_bit_self detail p h = ground (arith, test_bit-set_bit detail p p h)

same_word : (v w : ℕ) → v / 64 ≡ w / 64 → v % 64 ≡ w % 64 → v ≡ w
same_word v w h k = omega arith

-- `markSummary` after a set, and `unmarkSummaryIfWordZero` after a clear, keep the summary exact.
pub set_bit-SummaryExact :
    (detail : Bytes) (summary : List ℕ) (p : ℕ)
    → InRange detail summary p
    → SummaryExact detail summary
    → SummaryExact (set_bit detail p) (mark_summary summary p)
unfolding mark_summary
set_bit-SummaryExact detail summary p (hd, hs) exact w = elim (ℕ_discrete (p / 64) w) [
  | yes e ↦ ground (
    arith,
    e,
    has_bit-or_bit summary (p / 64 / 64) (p / 64 % 64) (w / 64) (w % 64) hs,
    word_ne_zero (set_bit detail p) p (test_bit-set_bit_self detail p hd),
  )
  | no ne ↦ ground (
    arith,
    exact w,
    has_bit-or_bit summary (p / 64 / 64) (p / 64 % 64) (w / 64) (w % 64) hs,
    word-set_bit detail p w ne,
  )
]

pub clear_bit-SummaryExact :
    (detail : Bytes) (summary : List ℕ) (p : ℕ)
    → InRange detail summary p
    → test_bit detail p ≡ true
    → SummaryExact detail summary
    → SummaryExact (clear_bit detail p) (unmark_summary_if_word_zero (clear_bit detail p) summary p)
unfolding unmark_summary_if_word_zero
clear_bit-SummaryExact detail summary p (hd, hs) t exact w = elim (ℕ_discrete (p / 64) w) [
  | yes e ↦ ground (
    arith,
    e,
    exact w,
    word_ne_zero detail p t,
    has_bit-not_bit summary (p / 64 / 64) (p / 64 % 64) (w / 64) (w % 64) hs,
  )
  | no ne ↦ ground (
    arith,
    exact w,
    has_bit-not_bit summary (p / 64 / 64) (p / 64 % 64) (w / 64) (w % 64) hs,
    word-clear_bit detail p w ne,
  )
]

-- Undoing a flip puts the summary back, too.
pub unmark-mark_summary :
    (detail : Bytes) (summary : List ℕ) (p : ℕ)
    → InRange detail summary p
    → SummaryExact detail summary
    → unmark_summary_if_word_zero detail (mark_summary summary p) p ≡ summary
unfolding unmark_summary_if_word_zero mark_summary
unmark-mark_summary detail summary p (hd, hs) exact =
    elim (Bool-cases (read_detail_word detail (p / 64) == 0)) [
      | inl z ↦ rw z (not_bit-or_bit summary _ _ hs (ground (arith, exact (p / 64))))
      | inr nz ↦ rw nz (or_bit_same summary _ _ (ground (arith, exact (p / 64))))
    ]

pub mark-unmark_summary :
    (detail : Bytes) (summary : List ℕ) (p : ℕ)
    → InRange detail summary p
    → test_bit detail p ≡ true
    → SummaryExact detail summary
    → mark_summary (unmark_summary_if_word_zero (clear_bit detail p) summary p) p ≡ summary
unfolding unmark_summary_if_word_zero mark_summary
mark-unmark_summary detail summary p (hd, hs) t exact =
    let marked : has_bit (get_or summary (p / 64 / 64) 0) (p / 64 % 64) ≡ true =
      ground (arith, exact (p / 64), word_ne_zero detail p t) in
    elim (Bool-cases (read_detail_word (clear_bit detail p) (p / 64) == 0)) [
      | inl z ↦ rw z (or_bit-not_bit summary _ _ hs marked)
      | inr nz ↦ rw nz (or_bit_same summary _ _ marked)
    ]

pub length-mark_summary :
    (summary : List ℕ) (p : ℕ) → length (mark_summary summary p) ≡ length summary
unfolding mark_summary
length-mark_summary summary p = length-set summary _ _

pub length-unmark_summary :
    (detail : Bytes) (summary : List ℕ) (p : ℕ)
    → length (unmark_summary_if_word_zero detail summary p) ≡ length summary
unfolding unmark_summary_if_word_zero
length-unmark_summary detail summary p = ground (
  arith,
  length-set summary (p / 64 / 64) (and_not (get_or summary (p / 64 / 64) 0) (2 ^ (p / 64 % 64))),
)
