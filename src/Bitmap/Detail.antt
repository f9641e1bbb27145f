-- ===== src/Bitmap/Detail.antt =====
-- Bits of the detail as a function of the page.
use gmdb.Common.{
  ℕ, ◌/◌, ◌%◌, ◌^◌, ◌<◌, true, false, Bytes, ◌==◌, if◌then◌else◌, length, length-set, get_or-set,
  get_or, ◌≡◌, arith, bit_or,
}
use gmdb.Common.Bits.Single.{has_bit, and_not, mask_test, has_bit-bit_or, has_bit-and_not}
use gmdb.Common.Bits.Words.{not_bit-or_bit, or_bit-not_bit}
use gmdb.Bitmap.{test_bit, set_bit, clear_bit}

pub test_bit-has_bit :
    (detail : Bytes) (p : ℕ) → test_bit detail p ≡ has_bit (get_or detail (p / 8) 0) (p % 8)
unfolding test_bit
test_bit-has_bit detail p = mask_test (get_or detail (p / 8) 0) (p % 8)

same_place : (p q : ℕ) → p / 8 ≡ q / 8 → p % 8 ≡ q % 8 → p ≡ q
same_place p q h k = omega arith

-- Setting a bit sets it and leaves every other page as it was.
pub test_bit-set_bit :
    (detail : Bytes) (p q : ℕ)
    → p / 8 < length detail
    → test_bit (set_bit detail p) q ≡ (if p == q then true else test_bit detail q)
unfolding set_bit
test_bit-set_bit detail p q h = ground (
  arith,
  test_bit-has_bit detail q,
  test_bit-has_bit (set_bit detail p) q,
  get_or-set detail (p / 8) (q / 8) (bit_or (get_or detail (p / 8) 0) (2 ^ (p % 8))) 0 h,
  has_bit-bit_or (get_or detail (p / 8) 0) (p % 8) (q % 8),
)

pub test_bit-clear_bit :
    (detail : Bytes) (p q : ℕ)
    → p / 8 < length detail
    → test_bit (clear_bit detail p) q ≡ (if p == q then false else test_bit detail q)
unfolding clear_bit
test_bit-clear_bit detail p q h = ground (
  arith,
  test_bit-has_bit detail q,
  test_bit-has_bit (clear_bit detail p) q,
  get_or-set detail (p / 8) (q / 8) (and_not (get_or detail (p / 8) 0) (2 ^ (p % 8))) 0 h,
  has_bit-and_not (get_or detail (p / 8) 0) (p % 8) (q % 8),
)

-- A flip and the flip back leave the bytes as they were.
pub clear_bit-set_bit :
    (detail : Bytes) (p : ℕ)
    → p / 8 < length detail
    → test_bit detail p ≡ false
    → clear_bit (set_bit detail p) p ≡ detail
unfolding set_bit clear_bit
clear_bit-set_bit detail p h e = not_bit-or_bit detail (p / 8) (p % 8) h (rw test_bit-has_bit at e)

pub set_bit-clear_bit :
    (detail : Bytes) (p : ℕ)
    → p / 8 < length detail
    → test_bit detail p ≡ true
    → set_bit (clear_bit detail p) p ≡ detail
unfolding set_bit clear_bit
set_bit-clear_bit detail p h e = or_bit-not_bit detail (p / 8) (p % 8) h (rw test_bit-has_bit at e)

pub length-set_bit : (detail : Bytes) (p : ℕ) → length (set_bit detail p) ≡ length detail
unfolding set_bit
length-set_bit detail p = length-set detail _ _

pub length-clear_bit : (detail : Bytes) (p : ℕ) → length (clear_bit detail p) ≡ length detail
unfolding clear_bit
length-clear_bit detail p = length-set detail _ _
