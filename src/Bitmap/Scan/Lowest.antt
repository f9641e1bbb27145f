-- ===== src/Bitmap/Scan/Lowest.antt =====
-- The searches for one page against the lowest free page of an interval
-- (internal/bitmap/bitmap.go, scanForward, FindFirst, FindFirstBelowFrom).
use gmdb.Common.{
  ℕ, ◌+◌, ◌-◌, ◌*◌, ◌/◌, ◌%◌, ◌^◌, ◌<◌, ◌≤◌, min, Option, none, some, true, false, AllBytes, Bytes,
  get_or, List, ◌≡◌, ◌≢◌, arith,
}
use gmdb.Common.Bits.Single.{has_bit, has_bit-zero, and_not}
use gmdb.Common.Bits.Masks.{
  trailing_zeros, at-trailing_zeros, below-trailing_zeros, trailing_zeros-lt,
}
use gmdb.Common.Bits.Halving.{bit_and-le}
use native.Mathlib.Decide.{dec_lt}
use gmdb.Bitmap.{test_bit, read_detail_word}
use gmdb.Bitmap.Summary.{SummaryExact, word_ne_zero}
use gmdb.Bitmap.Scan.{mask_first, mask_last}
use gmdb.Bitmap.Scan.Words.{has_bit-word, word-lt, has_bit-masked}

-- No page in [lo, hi) is free.
abbrev pub NoneFree : Bytes → ℕ → ℕ → Type 0
NoneFree detail lo hi = (q : ℕ) → lo ≤ q → q < hi → test_bit detail q ≡ false

-- The outcome of a search: the lowest free page of [lo, hi), where there is one.
abbrev pub LowestFree : Bytes → ℕ → ℕ → Option ℕ → Type 0
LowestFree detail lo hi none = NoneFree detail lo hi
LowestFree detail lo hi (some p) =
    (lo ≤ p) × (p < hi) × (test_bit detail p ≡ true) × NoneFree detail lo p

-- A word of 0 has no free page; 64 of them have none where their summary word is 0.
pub zero_word-clear :
    (detail : Bytes) (w q : ℕ)
    → read_detail_word detail w ≡ 0
    → q / 64 ≡ w
    → test_bit detail q ≡ false
zero_word-clear detail w q z e = ground (arith, word_ne_zero detail q)

pub zero_summary-clear :
    (detail : Bytes) (summary : List ℕ) (i q : ℕ)
    → SummaryExact detail summary
    → get_or summary i 0 ≡ 0
    → q / 64 / 64 ≡ i
    → test_bit detail q ≡ false
zero_summary-clear detail summary i q exact z e =
    ground (arith, exact (q / 64), word_ne_zero detail q, has_bit-zero (q / 64 % 64))

abbrev pub masked_word : Bytes → ℕ → ℕ → ℕ → ℕ
masked_word detail lo hi w = mask_last hi w (mask_first lo w (read_detail_word detail w))

masked_word-lt :
    (detail : Bytes) (lo hi w : ℕ) → AllBytes detail → masked_word detail lo hi w < 2 ^ 64
unfolding mask_first mask_last and_not
masked_word-lt detail lo hi w bytes = ground (
  arith,
  word-lt detail w bytes,
  bit_and-le (mask_first lo w (read_detail_word detail w)) (2 ^ (hi % 64) - 1),
)

-- The masked word at a page of the word that lies in [lo, hi).
masked_word-page :
    (detail : Bytes) (lo hi w q : ℕ)
    → AllBytes detail
    → q / 64 ≡ w
    → lo ≤ q
    → q < hi
    → has_bit (masked_word detail lo hi w) (q % 64) ≡ test_bit detail q
masked_word-page detail lo hi w q bytes e h k =
    let place : w * 64 + q % 64 ≡ q = omega arith in
    ground (
      arith,
      place,
      has_bit-masked lo hi w (read_detail_word detail w) (q % 64) (omega arith) (omega arith)
          (omega arith),
      has_bit-word detail w (q % 64) bytes (omega arith),
    )

-- Where no page before word `w` is free, nor any of the word, none is before the next word.
pub next_word :
    (detail : Bytes) (lo hi w : ℕ)
    → NoneFree detail lo (min (w * 64) hi)
    → ((q : ℕ) → lo ≤ q → q < hi → q / 64 ≡ w → test_bit detail q ≡ false)
    → NoneFree detail lo (min ((w + 1) * 64) hi)
next_word detail lo hi w before here q h k = elim (dec_lt q (w * 64)) [
  | yes below ↦ before q h (omega arith)
  | no at ↦ here q h (omega arith) (omega arith)
]

pub masked_zero-clear :
    (detail : Bytes) (lo hi w q : ℕ)
    → AllBytes detail
    → masked_word detail lo hi w ≡ 0
    → lo ≤ q
    → q < hi
    → q / 64 ≡ w
    → test_bit detail q ≡ false
masked_zero-clear detail lo hi w q bytes z h k e =
    ground (arith, masked_word-page detail lo hi w q bytes e h k, has_bit-zero (q % 64))

-- The place in the word of the page that the scan finds there.
abbrev pub found : Bytes → ℕ → ℕ → ℕ → ℕ
found detail lo hi w = trailing_zeros 64 (masked_word detail lo hi w)

-- A masked word other than 0 gives the lowest free page.
module _ (detail : Bytes) (lo hi w : ℕ) (bytes : AllBytes detail) where
  pub found-inside :
      lo / 64 ≤ w
      → w * 64 < hi
      → masked_word detail lo hi w ≢ 0
      → (lo ≤ w * 64 + found detail lo hi w)
        × (w * 64 + found detail lo hi w < hi)
        × (test_bit detail (w * 64 + found detail lo hi w) ≡ true)
  found-inside h k ne =
      let size = masked_word-lt detail lo hi w bytes in
      let width = trailing_zeros-lt 64 (masked_word detail lo hi w) size (omega arith) in
      let bit = at-trailing_zeros 64 (masked_word detail lo hi w) size (omega arith) in
      let masked =
        has_bit-masked lo hi w (read_detail_word detail w) (found detail lo hi w) h k width in
      let page = has_bit-word detail w (found detail lo hi w) bytes width in ground arith

  pub found-LowestFree :
      lo / 64 ≤ w
      → w * 64 < hi
      → masked_word detail lo hi w ≢ 0
      → NoneFree detail lo (min (w * 64) hi)
      → LowestFree detail lo hi (some (w * 64 + found detail lo hi w))
  found-LowestFree h k ne before =
      let (above, below, free) = found-inside h k ne in
      (
        above,
        below,
        free,
        λ q l m. elim (dec_lt q (w * 64)) [
          | yes earlier ↦ before q l (omega arith)
          | no same ↦ ground (
            arith,
            masked_word-page detail lo hi w q bytes
                (omega (
                  arith,
                  trailing_zeros-lt 64 (masked_word detail lo hi w)
                      (masked_word-lt detail lo hi w bytes) (omega arith),
                ))
                l (omega arith),
            below-trailing_zeros 64 (masked_word detail lo hi w) (q % 64) (omega arith),
          )
        ],
      )
