-- ===== src/Bitmap/Scan/Forward.antt =====
-- The loop of `scanForward` finds the lowest free page (internal/bitmap/bitmap.go).
use gmdb.Common.{
  ℕ, zero, suc, ◌+◌, ◌*◌, ◌/◌, ◌%◌, ◌<◌, ◌≤◌, max, min, Option, none, some, true, false, AllBytes,
  Bytes, leb, ltb, ◌==◌, ◌&&◌, ◌||◌, get_or, ◌≡◌, ◌≢◌, arith, ◌⊎◌, inl, inr, Bool-cases,
  if◌then◌else◌,
}
use native.Mathlib.Decide.{dec_lt, ℕ_discrete}
use gmdb.Bitmap.{Bitmap, read_detail_word}
use gmdb.Bitmap.Invariant.{IsValid}
use gmdb.Bitmap.Scan.{scan_words, scan_forward, or_else, find_first, find_first_below_from}
use gmdb.Bitmap.Scan.Lowest.{
  NoneFree, LowestFree, masked_word, next_word, masked_zero-clear, found, found-inside,
  found-LowestFree, zero_word-clear, zero_summary-clear,
}

module _ (b : Bitmap) (lo hi : ℕ) (v : IsValid b) (bytes : AllBytes b.detail) where
  -- Where the summary skips, none of the 64 words has a free page.
  skip_words :
      (w : ℕ)
      → (w % 64 == 0 && get_or b.summary (w / 64) 0 == 0) ≡ true
      → NoneFree b.detail lo (min (w * 64) hi)
      → NoneFree b.detail lo (min ((w + 64) * 64) hi)
  skip_words w s before q h k =
      let aligned : w % 64 ≡ 0 = ground arith in
      let empty : get_or b.summary (w / 64) 0 ≡ 0 = ground arith in
      elim (dec_lt q (w * 64)) [
        | yes below ↦ before q h (omega arith)
        | no at ↦ zero_summary-clear b.detail b.summary (w / 64) q v.exact empty (omega arith)
      ]

  -- A word that is read: the page found in it, or the rest of the scan.
  read_word :
      (w : ℕ) (rest : Option ℕ)
      → b.first_data_page ≤ lo
      → lo / 64 ≤ w
      → w * 64 < hi
      → NoneFree b.detail lo (min (w * 64) hi)
      → (NoneFree b.detail lo (min ((w + 1) * 64) hi) → LowestFree b.detail lo hi rest)
      → LowestFree b.detail lo hi (
          let page = w * 64 + found b.detail lo hi w in
          if read_detail_word b.detail w == 0
          then rest
          else if masked_word b.detail lo hi w == 0
          then rest
          else if ltb page b.first_data_page || leb hi page
          then rest
          else some page)
  read_word w rest f s more before next = elim (ℕ_discrete (read_detail_word b.detail w) 0) [
    | yes z ↦
        let test : (read_detail_word b.detail w == 0) ≡ true = ground arith in
        rw test
          (next (next_word b.detail lo hi w before (λ q h k e. zero_word-clear b.detail w q z e)))
    | no nz ↦
        let test : (read_detail_word b.detail w == 0) ≡ false = ground arith in
        rw test (elim (ℕ_discrete (masked_word b.detail lo hi w) 0) [
          | yes z ↦
              let masked : (masked_word b.detail lo hi w == 0) ≡ true = ground arith in
              rw masked (
                next (
                  next_word b.detail lo hi w before
                    (λ q h k e. masked_zero-clear b.detail lo hi w q bytes z h k e)))
          | no ne ↦
              let masked : (masked_word b.detail lo hi w == 0) ≡ false = ground arith in
              let inside = found-inside b.detail lo hi w bytes s more ne in
              let in_range : (ltb (w * 64 + found b.detail lo hi w) b.first_data_page
                    || leb hi (w * 64 + found b.detail lo hi w))
                  ≡ false =
                ground arith in
              rw (masked, in_range) (found-LowestFree b.detail lo hi w bytes s more ne before)
        ])
  ]

  scan_words-LowestFree :
      (fuel w : ℕ)
      → b.first_data_page ≤ lo
      → lo / 64 ≤ w
      → (hi + 63) / 64 ≤ w + fuel
      → NoneFree b.detail lo (min (w * 64) hi)
      → LowestFree b.detail lo hi (scan_words fuel b lo hi w)
  unfolding scan_words
  scan_words-LowestFree zero w f s e before = λ q h k. before q h (omega arith)
  scan_words-LowestFree (suc fuel) w f s e before = elim (dec_lt (w * 64) hi) [
    | no end ↦
        let over : leb ((hi + 63) / 64) w ≡ true = ground arith in
        rw over (λ q h k. before q h (omega arith))
    | yes more ↦
        let inside : leb ((hi + 63) / 64) w ≡ false = ground arith in
        rw inside (elim (Bool-cases (w % 64 == 0 && get_or b.summary (w / 64) 0 == 0)) [
          | inl skip ↦ rw skip (
              scan_words-LowestFree fuel (w + 64) f (omega arith) (omega arith)
                (skip_words w skip before))
          | inr read ↦ rw read (
              read_word w (scan_words fuel b lo hi (w + 1)) f s more before
                (λ clear. scan_words-LowestFree fuel (w + 1) f (omega arith) (omega arith) clear))
        ])
  ]

-- A search of [from, to), clamped to the data pages.
pub scan_forward-LowestFree :
    (b : Bitmap) (from to : ℕ)
    → IsValid b
    → AllBytes b.detail
    → LowestFree b.detail
        (max from b.first_data_page)
        (min to b.total_pages)
        (scan_forward b from to)
unfolding scan_forward
scan_forward-LowestFree b from to v bytes =
    let lo = max from b.first_data_page in
    let hi = min to b.total_pages in
    elim (dec_lt lo hi) [
      | no empty ↦
          let test : leb hi lo ≡ true = ground arith in rw test (λ q h k. absurd (omega arith))
      | yes some_pages ↦
          let test : leb hi lo ≡ false = ground arith in
          rw test (
            scan_words-LowestFree b lo hi v bytes ((hi + 63) / 64) (lo / 64) (omega arith)
              (omega arith) (omega arith) (λ q h k. absurd (omega arith)))
    ]

-- An interval that lies among the data pages is searched as it is.
scan_within :
    (b : Bitmap) (lo hi : ℕ)
    → IsValid b
    → AllBytes b.detail
    → b.first_data_page ≤ lo
    → hi ≤ b.total_pages
    → LowestFree b.detail lo hi (scan_forward b lo hi)
scan_within b lo hi v bytes h k =
    let same_lo : max lo b.first_data_page ≡ lo = omega arith in
    let same_hi : min hi b.total_pages ≡ hi = omega arith in
    rw (same_lo, same_hi) at (scan_forward-LowestFree b lo hi v bytes)

-- In a valid bitmap of byte values, FindFirstBelowFrom returns the lowest free page from `from` on, below
-- `floor`, among the data pages of the file, and none only where all of them are in use.
pub find_first_below_from-LowestFree :
    (b : Bitmap) (from floor : ℕ)
    → IsValid b
    → AllBytes b.detail
    → LowestFree b.detail
        (max from b.first_data_page)
        (min floor b.total_pages)
        (find_first_below_from b from floor)
unfolding find_first_below_from
find_first_below_from-LowestFree b from floor v bytes =
    let lo = max from b.first_data_page in
    let hi = min floor b.total_pages in
    elim (dec_lt lo hi) [
      | no empty ↦
          let test : leb hi lo ≡ true = ground arith in rw test (λ q h k. absurd (omega arith))
      | yes some_pages ↦
          let test : leb hi lo ≡ false = ground arith in
          rw test (scan_within b lo hi v bytes (omega arith) (omega arith))
    ]

-- The first search, or the second where the first finds nothing.
second_search :
    (detail : Bytes) (lo mid hi : ℕ) (upper lower : Option ℕ)
    → LowestFree detail mid hi upper
    → LowestFree detail lo mid lower
    → ((or_else upper lower ≢ none) × LowestFree detail mid hi (or_else upper lower))
      ⊎ (NoneFree detail mid hi × LowestFree detail lo mid (or_else upper lower))
unfolding or_else
second_search detail lo mid hi none lower hu hl = inr (hu, hl)
second_search detail lo mid hi (some p) lower hu hl = inl (ground arith, hu)

-- FindFirst in a valid bitmap of byte values whose hint lies among the data pages: the lowest free
-- page from the hint on, or else the lowest one below it, or none where the count of free pages is 0 or no data page is free.
pub find_first-LowestFree :
    (b : Bitmap)
    → IsValid b
    → AllBytes b.detail
    → b.first_data_page ≤ b.hint
    → b.hint ≤ b.total_pages
    → ((b.num_free ≡ 0) × (find_first b ≡ none))
      ⊎ ((b.num_free ≢ 0)
          × (((find_first b ≢ none) × LowestFree b.detail b.hint b.total_pages (find_first b))
              ⊎ (NoneFree b.detail b.hint b.total_pages
                  × LowestFree b.detail b.first_data_page b.hint (find_first b))))
unfolding find_first
find_first-LowestFree b v bytes h k = elim (ℕ_discrete b.num_free 0) [
  | yes z ↦ inl (z, ground arith)
  | no ne ↦
      let test : (b.num_free == 0) ≡ false = ground arith in
      inr (
        ne,
        rw test (
            second_search b.detail b.first_data_page b.hint b.total_pages
              (scan_forward b b.hint b.total_pages) (scan_forward b b.first_data_page b.hint)
              (scan_within b b.hint b.total_pages v bytes h (omega arith))
              (scan_within b b.first_data_page b.hint v bytes (omega arith) k)),
      )
]
