-- ===== src/Common/BigEndian.antt =====
-- Big-endian integers, as in encoding/binary's BigEndian, and their order as byte strings.
use Prim.Native.Nat.{ℕ, zero, suc, ◌+◌, ◌*◌, ◌/◌, ◌%◌, ◌^◌, ◌≤◌, ◌<◌, compare}
use mathlib.Core.Path.{◌≡◌, refl, ap, ◌∙◌}
use mathlib.Core.List.{[], ◌∷◌}
use native.Mathlib.Omega.{arith}
use native.Mathlib.Nat.{
  pow-suc, one-le-pow, mul-le-mul_right, div-add-mod', mod-lt, mod-eq_of_lt, mul-add-mod_self_right,
}
use mathlib.Core.Logic.{◌⊎◌, inl, inr}
use gmdb.Common.Lists.{Bytes, length}
use gmdb.Common.Order.{compare_bytes, then_by}

-- `BigEndian.AppendUint64`, with `n` bytes
unfoldable pub be_bytes : ℕ → ℕ → Bytes
be_bytes zero v = []
be_bytes (suc n) v = (v / 256 ^ n % 256) ∷ be_bytes n v

-- `BigEndian.Uint64`
unfoldable pub from_be : Bytes → ℕ
from_be [] = 0
from_be (b ∷ bs) = b * 256 ^ length bs + from_be bs

pub length-be_bytes : (n v : ℕ) → length (be_bytes n v) ≡ n
unfolding be_bytes
length-be_bytes zero v = refl
length-be_bytes (suc n) v = ap suc (length-be_bytes n v)

-- The digits of a number to the base of a power of 256.
split_digit : (p v : ℕ) → 0 < p → v % (256 * p) ≡ v / p % 256 * p + v % p
split_digit p v h =
    let q = v / p in
    let r = q % 256 * p + v % p in
    let low = mod-lt v h in
    let digit : q % 256 ≤ 255 = omega arith in
    let high = mul-le-mul_right p digit in
    let small : r < 256 * p = omega arith in
    let halves : q / 256 * 256 + q % 256 ≡ q = omega arith in
    let whole : v ≡ q / 256 * (256 * p) + r =
      grind (arith, div-add-mod' v p, ap (λ (x : ℕ). x * p) halves) in
    ap (λ (x : ℕ). x % (256 * p)) whole
    ∙ mul-add-mod_self_right (q / 256) (256 * p) r
    ∙ mod-eq_of_lt small

pub from_be-be_bytes : (n v : ℕ) → from_be (be_bytes n v) ≡ v % 256 ^ n
unfolding from_be be_bytes
from_be-be_bytes zero v = omega arith
from_be-be_bytes (suc n) v =
    let power = one-le-pow n 256 in
    let split = split_digit (256 ^ n) v (omega (arith, power)) in
    let next : 256 ^ suc n ≡ 256 * 256 ^ n = omega (arith, pow-suc 256 n) in
    rw (length-be_bytes n v, from_be-be_bytes n v, next, split)

cmp : (h k : ℕ) → (h < k) ⊎ ((h ≡ k) ⊎ (k < h))
cmp h k = ground arith

compare_split :
    (p h k a b : ℕ)
    → a < p
    → b < p
    → then_by (compare h k) (compare a b) ≡ compare (h * p + a) (k * p + b)
compare_split p h k a b x y = elim (cmp h k) [
  | inl lt ↦
      let step = mul-le-mul_right p lt in
      let above : h * p + a < k * p + b = omega arith in ground arith
  | inr (inl eq) ↦ let same = ap (λ (d : ℕ). d * p) eq in ground arith
  | inr (inr gt) ↦
      let step = mul-le-mul_right p gt in
      let above : k * p + b < h * p + a = omega arith in ground arith
]

-- The bytes are ordered as the numbers are.
pub compare-be_bytes :
    (n v w : ℕ) → compare_bytes (be_bytes n v) (be_bytes n w) ≡ compare (v % 256 ^ n) (w % 256 ^ n)
unfolding be_bytes compare_bytes
compare-be_bytes zero v w = ground arith
compare-be_bytes (suc n) v w =
    let p = 256 ^ n in
    let pos : 0 < p = omega (arith, one-le-pow n 256) in
    let next : 256 ^ suc n ≡ 256 * p = omega (arith, pow-suc 256 n) in
    rw (compare-be_bytes n v w, next, split_digit p v pos, split_digit p w pos)
      (compare_split p (v / p % 256) (w / p % 256) (v % p) (w % p) (mod-lt v pos) (mod-lt w pos))
