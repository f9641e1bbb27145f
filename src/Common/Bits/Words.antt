-- ===== src/Common/Bits/Words.antt =====
-- Bit `k` of word `i` in an array of words: set, cleared, and put back.
use Prim.Native.Nat.{ℕ, ◌^◌, ◌<◌, bit_or}
use mathlib.Core.Path.{◌≡◌}
use mathlib.Core.Bool.{true, false}
use mathlib.Core.List.{List}
use native.Mathlib.Omega.{arith}
use gmdb.Common.Tests.{◌==◌, if◌then◌else◌}
use gmdb.Common.Lists.{length, get_or, set, get_or-set, set-get_or, set-set}
use gmdb.Common.Bits.Single.{
  has_bit, and_not, and_not-bit_or, bit_or-and_not, bit_or_same, and_not_same, has_bit-bit_or,
  has_bit-and_not,
}

abbrev pub or_bit : List ℕ → ℕ → ℕ → List ℕ
or_bit xs i k = set xs i (bit_or (get_or xs i 0) (2 ^ k))

abbrev pub not_bit : List ℕ → ℕ → ℕ → List ℕ
not_bit xs i k = set xs i (and_not (get_or xs i 0) (2 ^ k))

get_or-set_self : (xs : List ℕ) (i v : ℕ) → i < length xs → get_or (set xs i v) i 0 ≡ v
get_or-set_self xs i v h = ground (arith, get_or-set xs i i v 0 h)

pub not_bit-or_bit :
    (xs : List ℕ) (i k : ℕ)
    → i < length xs
    → has_bit (get_or xs i 0) k ≡ false
    → not_bit (or_bit xs i k) i k ≡ xs
not_bit-or_bit xs i k h e =
    rw (get_or-set_self xs i _ h, set-set, and_not-bit_or (get_or xs i 0) k e) (set-get_or xs i 0)

pub or_bit-not_bit :
    (xs : List ℕ) (i k : ℕ)
    → i < length xs
    → has_bit (get_or xs i 0) k ≡ true
    → or_bit (not_bit xs i k) i k ≡ xs
or_bit-not_bit xs i k h e =
    rw (get_or-set_self xs i _ h, set-set, bit_or-and_not (get_or xs i 0) k e) (set-get_or xs i 0)

pub or_bit_same : (xs : List ℕ) (i k : ℕ) → has_bit (get_or xs i 0) k ≡ true → or_bit xs i k ≡ xs
or_bit_same xs i k e = rw (bit_or_same (get_or xs i 0) k e) (set-get_or xs i 0)

pub not_bit_same : (xs : List ℕ) (i k : ℕ) → has_bit (get_or xs i 0) k ≡ false → not_bit xs i k ≡ xs
not_bit_same xs i k e = rw (and_not_same (get_or xs i 0) k e) (set-get_or xs i 0)

-- Bit `l` of word `j` after the write of bit `k` of word `i`.
pub has_bit-or_bit :
    (xs : List ℕ) (i k j l : ℕ)
    → i < length xs
    → has_bit (get_or (or_bit xs i k) j 0) l ≡ (
        if i == j
        then if k == l then true else has_bit (get_or xs j 0) l
        else has_bit (get_or xs j 0) l)
has_bit-or_bit xs i k j l h = ground (
  arith,
  get_or-set xs i j (bit_or (get_or xs i 0) (2 ^ k)) 0 h,
  has_bit-bit_or (get_or xs i 0) k l,
)

pub has_bit-not_bit :
    (xs : List ℕ) (i k j l : ℕ)
    → i < length xs
    → has_bit (get_or (not_bit xs i k) j 0) l ≡ (
        if i == j
        then if k == l then false else has_bit (get_or xs j 0) l
        else has_bit (get_or xs j 0) l)
has_bit-not_bit xs i k j l h = ground (
  arith,
  get_or-set xs i j (and_not (get_or xs i 0) (2 ^ k)) 0 h,
  has_bit-and_not (get_or xs i 0) k l,
)
