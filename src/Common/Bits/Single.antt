-- ===== src/Common/Bits/Single.antt =====
-- One bit of a word: test, set and clear by the mask 1 << k, at every width.
use Prim.Native.Nat.{ℕ, zero, suc, ◌+◌, ◌-◌, ◌*◌, ◌/◌, ◌%◌, ◌^◌, ◌≤◌, ◌<◌, bit_and, bit_or}
use mathlib.Core.Path.{◌≡◌, refl, ap}
use mathlib.Core.Bool.{Bool, true, false, not}
use native.Mathlib.Nat.{pow-suc}
use native.Mathlib.Omega.{arith}
use gmdb.Common.Tests.{◌==◌, if◌then◌else◌}
use gmdb.Common.Bits.Halving.{bit_and-halve, bit_and-zero, bit_and-le, bit_or-halve, bit_or-zero}

-- Bit `k` of `x`, by halving.
unfoldable pub has_bit : ℕ → ℕ → Bool
has_bit x zero = x % 2 == 1
has_bit x (suc k) = has_bit (x / 2) k

-- Go's `x &^ m`: `x` without the bits of `m`.
unfoldable pub and_not : ℕ → ℕ → ℕ
and_not x m = x - bit_and x m

half_pow : (k : ℕ) → 2 ^ suc k / 2 ≡ 2 ^ k
half_pow k = omega (arith, pow-suc 2 k)

-- The mask 1 << k on the digits: at the lowest, and above it.
and_mask_suc : (x k : ℕ) → bit_and x (2 ^ suc k) ≡ bit_and (x / 2) (2 ^ k) * 2
and_mask_suc x k = omega (
  arith,
  bit_and-halve x (2 ^ suc k),
  pow-suc 2 k,
  ap (λ (t : ℕ). bit_and (x / 2) t) (half_pow k),
)

or_mask_zero : (x : ℕ) → bit_or x 1 ≡ x / 2 * 2 + 1
or_mask_zero x = omega (arith, bit_or-halve x 1, bit_or-zero (x / 2))

or_mask_suc : (x k : ℕ) → bit_or x (2 ^ suc k) ≡ bit_or (x / 2) (2 ^ k) * 2 + x % 2
or_mask_suc x k =
    omega (
      arith,
      bit_or-halve x (2 ^ suc k),
      pow-suc 2 k,
      ap (λ (t : ℕ). bit_or (x / 2) t) (half_pow k),
    )

and_mask_zero : (x : ℕ) → bit_and x 1 ≡ x % 2
and_mask_zero x = omega (arith, bit_and-halve x 1, bit_and-zero (x / 2))

not_mask_zero : (x : ℕ) → and_not x 1 ≡ x / 2 * 2
unfolding and_not
not_mask_zero x = omega (arith, and_mask_zero x)

not_mask_suc : (x k : ℕ) → and_not x (2 ^ suc k) ≡ and_not (x / 2) (2 ^ k) * 2 + x % 2
unfolding and_not
not_mask_suc x k = omega (arith, and_mask_suc x k, bit_and-le (x / 2) (2 ^ k))

-- The test `x & (1 << k) != 0` reads bit `k`.
pub mask_test : (x k : ℕ) → not (bit_and x (2 ^ k) == 0) ≡ has_bit x k
unfolding has_bit
mask_test x zero = ground (arith, and_mask_zero x)
mask_test x (suc k) = ground (arith, and_mask_suc x k, mask_test (x / 2) k)

or_half : (x k : ℕ) → bit_or x (2 ^ suc k) / 2 ≡ bit_or (x / 2) (2 ^ k)
or_half x k = omega (arith, or_mask_suc x k)

or_low : (x k : ℕ) → bit_or x (2 ^ suc k) % 2 ≡ x % 2
or_low x k = omega (arith, or_mask_suc x k)

or_half_zero : (x : ℕ) → bit_or x 1 / 2 ≡ x / 2
or_half_zero x = omega (arith, or_mask_zero x)

not_half : (x k : ℕ) → and_not x (2 ^ suc k) / 2 ≡ and_not (x / 2) (2 ^ k)
not_half x k = omega (arith, not_mask_suc x k)

not_low : (x k : ℕ) → and_not x (2 ^ suc k) % 2 ≡ x % 2
not_low x k = omega (arith, not_mask_suc x k)

not_half_zero : (x : ℕ) → and_not x 1 / 2 ≡ x / 2
not_half_zero x = omega (arith, not_mask_zero x)

-- Setting bit `k` sets it and leaves the others.
pub has_bit-bit_or :
    (x k j : ℕ) → has_bit (bit_or x (2 ^ k)) j ≡ (if k == j then true else has_bit x j)
unfolding has_bit
has_bit-bit_or x zero zero = ground (arith, or_mask_zero x)
has_bit-bit_or x zero (suc j) = ground (arith, or_half_zero x)
has_bit-bit_or x (suc k) zero = ground (arith, or_low x k)
has_bit-bit_or x (suc k) (suc j) = ground (arith, or_half x k, has_bit-bit_or (x / 2) k j)

-- Clearing bit `k` clears it and leaves the others.
pub has_bit-and_not :
    (x k j : ℕ) → has_bit (and_not x (2 ^ k)) j ≡ (if k == j then false else has_bit x j)
unfolding has_bit
has_bit-and_not x zero zero = ground (arith, not_mask_zero x)
has_bit-and_not x zero (suc j) = ground (arith, not_half_zero x)
has_bit-and_not x (suc k) zero = ground (arith, not_low x k)
has_bit-and_not x (suc k) (suc j) = ground (arith, not_half x k, has_bit-and_not (x / 2) k j)

-- A bit that was clear is cleared again, and one that was set is set again.
pub and_not-bit_or : (x k : ℕ) → has_bit x k ≡ false → and_not (bit_or x (2 ^ k)) (2 ^ k) ≡ x
unfolding has_bit
and_not-bit_or x zero h = ground (arith, not_mask_zero (bit_or x 1), or_half_zero x)
and_not-bit_or x (suc k) h = ground (
  arith,
  not_mask_suc (bit_or x (2 ^ suc k)) k,
  or_half x k,
  or_low x k,
  and_not-bit_or (x / 2) k,
)

pub bit_or-and_not : (x k : ℕ) → has_bit x k ≡ true → bit_or (and_not x (2 ^ k)) (2 ^ k) ≡ x
unfolding has_bit
bit_or-and_not x zero h = ground (arith, or_mask_zero (and_not x 1), not_half_zero x)
bit_or-and_not x (suc k) h = ground (
  arith,
  or_mask_suc (and_not x (2 ^ suc k)) k,
  not_half x k,
  not_low x k,
  bit_or-and_not (x / 2) k,
)

pub bit_or_same : (x k : ℕ) → has_bit x k ≡ true → bit_or x (2 ^ k) ≡ x
unfolding has_bit
bit_or_same x zero h = ground (arith, or_mask_zero x)
bit_or_same x (suc k) h = ground (arith, or_mask_suc x k, bit_or_same (x / 2) k)

pub and_not_same : (x k : ℕ) → has_bit x k ≡ false → and_not x (2 ^ k) ≡ x
unfolding has_bit
and_not_same x zero h = ground (arith, not_mask_zero x)
and_not_same x (suc k) h = ground (arith, not_mask_suc x k, and_not_same (x / 2) k)

-- A word of `w` bits stays one.
pub bit_or-lt : (w x k : ℕ) → k < w → x < 2 ^ w → bit_or x (2 ^ k) < 2 ^ w
bit_or-lt zero x k hk h = absurd (omega arith)
bit_or-lt (suc w) x zero hk h = omega (arith, or_mask_zero x, pow-suc 2 w)
bit_or-lt (suc w) x (suc k) hk h = omega (
  arith,
  or_mask_suc x k,
  pow-suc 2 w,
  bit_or-lt w (x / 2) k (omega arith) (omega (arith, pow-suc 2 w)),
)

pub and_not-le : (x m : ℕ) → and_not x m ≤ x
unfolding and_not
and_not-le x m = omega arith

pub has_bit-zero : (k : ℕ) → has_bit 0 k ≡ false
unfolding has_bit
has_bit-zero zero = refl
has_bit-zero (suc k) = has_bit-zero k
