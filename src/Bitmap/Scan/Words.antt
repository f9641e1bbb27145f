-- ===== src/Bitmap/Scan/Words.antt =====
-- The bits of the detail's words, and the masked word of the scan.
use gmdb.Common.{
  ℕ, ◌+◌, ◌*◌, ◌/◌, ◌%◌, ◌^◌, ◌<◌, ◌≤◌, false, AllBytes, Bytes, ltb, leb, ◌&&◌, if◌then◌else◌, ◌≡◌,
  arith,
}
use gmdb.Common.Bits.Single.{has_bit}
use gmdb.Common.Bits.Masks.{has_bit-low_mask, has_bit-not_low_mask}
use gmdb.Common.Buffer.{get_uint64}
use gmdb.Common.Buffer.Digits.{has_bit-slice, from_le-slice-lt}
use gmdb.Bitmap.{test_bit, read_detail_word}
use gmdb.Bitmap.Detail.{test_bit-has_bit}
use gmdb.Bitmap.Scan.{mask_first, mask_last}

-- Bit `j` of word `w` is the bit of page `w * 64 + j`.
pub has_bit-word :
    (detail : Bytes) (w j : ℕ)
    → AllBytes detail
    → j < 64
    → has_bit (read_detail_word detail w) j ≡ test_bit detail (w * 64 + j)
unfolding read_detail_word get_uint64
has_bit-word detail w j h k =
    let split : j / 8 * 8 + j % 8 ≡ j = omega arith in
    let byte : w * 8 + j / 8 ≡ (w * 64 + j) / 8 = omega arith in
    let bit : (w * 64 + j) % 8 ≡ j % 8 = omega arith in
    ground (
      arith,
      split,
      byte,
      bit,
      test_bit-has_bit detail (w * 64 + j),
      has_bit-slice (w * 8) 8 (j / 8) (j % 8) detail h (omega arith) (omega arith),
    )

pub word-lt : (detail : Bytes) (w : ℕ) → AllBytes detail → read_detail_word detail w < 2 ^ 64
unfolding read_detail_word get_uint64
word-lt detail w h = from_le-slice-lt (w * 8) 8 detail h

-- The masked word has the bits of the pages in [from, to) only.
pub has_bit-masked :
    (from to w dw j : ℕ)
    → from / 64 ≤ w
    → w * 64 < to
    → j < 64
    → has_bit (mask_last to w (mask_first from w dw)) j
      ≡ (if leb from (w * 64 + j) && ltb (w * 64 + j) to then has_bit dw j else false)
unfolding mask_first mask_last
has_bit-masked from to w dw j h k l = ground (
  arith,
  has_bit-low_mask dw (to % 64) j,
  has_bit-not_low_mask dw (from % 64) j,
  has_bit-low_mask (mask_first from w dw) (to % 64) j,
)
