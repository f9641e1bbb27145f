-- ===== src/Common/Bits/Masks.antt =====
-- Masks of low bits, and the lowest set bit of a word.
use Prim.Native.Nat.{ℕ, zero, suc, ◌+◌, ◌-◌, ◌*◌, ◌/◌, ◌%◌, ◌^◌, ◌<◌, bit_and}
use mathlib.Core.Path.{◌≡◌, ap}
use mathlib.Core.Bool.{true, false}
use native.Mathlib.Nat.{pow-suc, one-le-pow}
use native.Mathlib.Omega.{arith}
use gmdb.Common.Tests.{◌==◌, ltb, if◌then◌else◌}
use gmdb.Common.Bits.Halving.{bit_and-halve, bit_and-zero, bit_and-le}
use gmdb.Common.Bits.Single.{has_bit, has_bit-zero, and_not}

half_ones : (k : ℕ) → (2 ^ suc k - 1) / 2 ≡ 2 ^ k - 1
half_ones k = omega (arith, one-le-pow k 2, pow-suc 2 k)

ones_suc : (x k : ℕ) → bit_and x (2 ^ suc k - 1) ≡ bit_and (x / 2) (2 ^ k - 1) * 2 + x % 2
ones_suc x k = omega (
  arith,
  bit_and-halve x (2 ^ suc k - 1),
  one-le-pow k 2,
  pow-suc 2 k,
  ap (λ (t : ℕ). bit_and (x / 2) t) (half_ones k),
)

ones_half : (x k : ℕ) → bit_and x (2 ^ suc k - 1) / 2 ≡ bit_and (x / 2) (2 ^ k - 1)
ones_half x k = omega (arith, ones_suc x k)

ones_low : (x k : ℕ) → bit_and x (2 ^ suc k - 1) % 2 ≡ x % 2
ones_low x k = omega (arith, ones_suc x k)

-- `x & (1 << k - 1)` keeps the bits below `k`.
pub has_bit-low_mask :
    (x k j : ℕ) → has_bit (bit_and x (2 ^ k - 1)) j ≡ (if ltb j k then has_bit x j else false)
unfolding has_bit
has_bit-low_mask x zero j = ground (arith, bit_and-zero x, has_bit-zero j)
has_bit-low_mask x (suc k) zero = ground (arith, ones_low x k)
has_bit-low_mask x (suc k) (suc j) = ground (arith, ones_half x k, has_bit-low_mask (x / 2) k j)

not_ones_half : (x k : ℕ) → and_not x (2 ^ suc k - 1) / 2 ≡ and_not (x / 2) (2 ^ k - 1)
unfolding and_not
not_ones_half x k = omega (arith, ones_suc x k, bit_and-le (x / 2) (2 ^ k - 1))

not_ones_low : (x k : ℕ) → and_not x (2 ^ suc k - 1) % 2 ≡ 0
unfolding and_not
not_ones_low x k = omega (arith, ones_suc x k, bit_and-le (x / 2) (2 ^ k - 1))

not_no_ones : (x : ℕ) → and_not x 0 ≡ x
unfolding and_not
not_no_ones x = omega (arith, bit_and-zero x)

-- `x &^ (1 << k - 1)` keeps the bits from `k` on.
pub has_bit-not_low_mask :
    (x k j : ℕ) → has_bit (and_not x (2 ^ k - 1)) j ≡ (if ltb j k then false else has_bit x j)
unfolding has_bit
has_bit-not_low_mask x zero j = ground (arith, not_no_ones x)
has_bit-not_low_mask x (suc k) zero = ground (arith, not_ones_low x k)
has_bit-not_low_mask x (suc k) (suc j) =
    ground (arith, not_ones_half x k, has_bit-not_low_mask (x / 2) k j)

-- math/bits.TrailingZeros64 at width `n`: the number of zero bits below the lowest set one.
unfoldable pub trailing_zeros : ℕ → ℕ → ℕ
trailing_zeros zero x = 0
trailing_zeros (suc n) x = if x % 2 == 1 then 0 else suc (trailing_zeros n (x / 2))

pub below-trailing_zeros : (n x j : ℕ) → j < trailing_zeros n x → has_bit x j ≡ false
unfolding trailing_zeros has_bit
below-trailing_zeros zero x j h = absurd (omega arith)
below-trailing_zeros (suc n) x zero h = ground arith
below-trailing_zeros (suc n) x (suc j) h = ground (arith, below-trailing_zeros n (x / 2) j)

pub at-trailing_zeros : (n x : ℕ) → x < 2 ^ n → 0 < x → has_bit x (trailing_zeros n x) ≡ true
unfolding trailing_zeros has_bit
at-trailing_zeros zero x h k = absurd (omega arith)
at-trailing_zeros (suc n) x h k = ground (arith, pow-suc 2 n, at-trailing_zeros n (x / 2))

pub trailing_zeros-lt : (n x : ℕ) → x < 2 ^ n → 0 < x → trailing_zeros n x < n
unfolding trailing_zeros
trailing_zeros-lt zero x h k = absurd (omega arith)
trailing_zeros-lt (suc n) x h k = ground (arith, pow-suc 2 n, trailing_zeros-lt n (x / 2))
