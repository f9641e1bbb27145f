-- ===== src/Common/Bits/Halving.antt =====
-- What `&` and `|` do with the lowest digit, for either operation at once: `pick` joins two digits,
-- and `base` is the result where the left number has run out.
use Prim.Native.Nat.{
  ℕ, zero, suc, ◌+◌, ◌-◌, ◌*◌, ◌/◌, ◌%◌, ◌≤◌, min, max, bit_and, bit_or, digits, bitwise,
  bit_and-bitwise, bit_or-bitwise,
}
use mathlib.Core.Path.{◌≡◌, refl, ap, ◌∙◌}
use native.Mathlib.Omega.{arith}

module _ (base : ℕ → ℕ) (pick : ℕ → ℕ → ℕ) where
  one_more : (fuel a b : ℕ) → a ≤ fuel → digits base pick (suc fuel) a b ≡ digits base pick fuel a b
  one_more zero zero b h = refl
  one_more (suc fuel) zero b h = refl
  one_more zero (suc a) b h = absurd (omega arith)
  one_more (suc fuel) (suc a) b h = omega (arith, one_more fuel (suc a / 2) (b / 2) (omega arith))

  surplus :
      (extra fuel a b : ℕ)
      → a ≤ fuel
      → digits base pick (extra + fuel) a b ≡ digits base pick fuel a b
  surplus zero fuel a b h =
      let none_extra : 0 + fuel ≡ fuel = omega arith in
      ap (λ (t : ℕ). digits base pick t a b) none_extra
  surplus (suc extra) fuel a b h =
      let next : suc extra + fuel ≡ suc (extra + fuel) = omega arith in
      ap (λ (t : ℕ). digits base pick t a b) next
      ∙ one_more (extra + fuel) a b (omega arith)
      ∙ surplus extra fuel a b h

  pub halve :
      (a b : ℕ)
      → bitwise base pick (suc a) b
        ≡ bitwise base pick (suc a / 2) (b / 2) * 2 + pick (suc a % 2) (b % 2)
  halve a b =
      let half = suc a / 2 in
      let spare : a - half + half ≡ a = omega arith in
      omega (
        arith,
        ap (λ (fuel : ℕ). digits base pick fuel half (b / 2)) spare,
        surplus (a - half) half half (b / 2) (omega arith),
      )

-- The lowest digit of `a & b`, and of `a | b`, and the rest.
pub bit_and-halve : (a b : ℕ) → bit_and a b ≡ bit_and (a / 2) (b / 2) * 2 + min (a % 2) (b % 2)
bit_and-halve zero b = omega (arith, bit_and-bitwise 0 b, bit_and-bitwise 0 (b / 2))
bit_and-halve (suc a) b =
    omega (
      arith,
      halve (λ y. 0) min a b,
      bit_and-bitwise (suc a / 2) (b / 2),
      bit_and-bitwise (suc a) b,
    )

pub bit_or-halve : (a b : ℕ) → bit_or a b ≡ bit_or (a / 2) (b / 2) * 2 + max (a % 2) (b % 2)
bit_or-halve zero b = omega (arith, bit_or-bitwise 0 b, bit_or-bitwise 0 (b / 2))
bit_or-halve (suc a) b =
    omega
      (arith, halve (λ y. y) max a b, bit_or-bitwise (suc a / 2) (b / 2), bit_or-bitwise (suc a) b)

-- `&` gives no more than its left number.
digits-le : (fuel a b : ℕ) → digits (λ y. 0) min fuel a b ≤ a
digits-le zero a b = omega arith
digits-le (suc fuel) zero b = omega arith
digits-le (suc fuel) (suc a) b = omega (arith, digits-le fuel (suc a / 2) (b / 2))

pub bit_and-le : (a b : ℕ) → bit_and a b ≤ a
bit_and-le a b = omega (arith, bit_and-bitwise a b, digits-le a a b)

-- 0 on the right.
digits-nothing : (fuel a : ℕ) → digits (λ y. 0) min fuel a 0 ≡ 0
digits-nothing zero a = refl
digits-nothing (suc fuel) zero = refl
digits-nothing (suc fuel) (suc a) = omega (arith, digits-nothing fuel (suc a / 2))

pub bit_and-zero : (a : ℕ) → bit_and a 0 ≡ 0
bit_and-zero a = bit_and-bitwise a 0 ∙ digits-nothing a a

digits-keep : (fuel a : ℕ) → a ≤ fuel → digits (λ y. y) max fuel a 0 ≡ a
digits-keep zero a h = omega arith
digits-keep (suc fuel) zero h = refl
digits-keep (suc fuel) (suc a) h = omega (arith, digits-keep fuel (suc a / 2) (omega arith))

pub bit_or-zero : (a : ℕ) → bit_or a 0 ≡ a
bit_or-zero a = bit_or-bitwise a 0 ∙ digits-keep a a (omega arith)
