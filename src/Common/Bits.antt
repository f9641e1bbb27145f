-- ===== src/Common/Bits.antt =====
-- `&` with a mask of low ones as a remainder, from the digit recursion that the operation stands for.
pub mod Halving
pub mod Single
pub mod Top
pub mod Masks
pub mod Words
use Prim.Native.Nat.{
  ℕ, zero, suc, ◌+◌, ◌-◌, ◌*◌, ◌/◌, ◌%◌, ◌^◌, ◌≤◌, ◌<◌, min, bit_and, digits, bit_and-bitwise,
}
use mathlib.Core.Path.{◌≡◌, refl, ap, ◌∙◌}
use native.Mathlib.Nat.{
  pow-suc, one-le-pow, div-add-mod', mul-add-mod_self_right, mod-eq_of_lt, mod-lt,
}
use native.Mathlib.Omega.{arith}
use gmdb.Common.Bits.Halving.{bit_and-halve, bit_and-zero}

halve_mask : (k : ℕ) → (2 ^ suc k - 1) / 2 ≡ 2 ^ k - 1
halve_mask k = omega (arith, pow-suc 2 k, one-le-pow k 2)

split_digits : (a k : ℕ) → a ≡ a / 2 / 2 ^ k * 2 ^ suc k + (a / 2 % 2 ^ k * 2 + a % 2)
split_digits a k =
    omega (arith, div-add-mod' (a / 2) (2 ^ k), ap (λ (t : ℕ). a / 2 / 2 ^ k * t) (pow-suc 2 k))

halve_mod : (a k : ℕ) → a % 2 ^ suc k ≡ a / 2 % 2 ^ k * 2 + a % 2
halve_mod a k =
    let pos : 0 < 2 ^ k = omega (arith, one-le-pow k 2) in
    ap (λ (t : ℕ). t % 2 ^ suc k) (split_digits a k)
    ∙ mul-add-mod_self_right (a / 2 / 2 ^ k) (2 ^ suc k) (a / 2 % 2 ^ k * 2 + a % 2)
    ∙ mod-eq_of_lt (omega (arith, mod-lt (a / 2) pos, pow-suc 2 k))

-- `a & (1 << k - 1)`
pub bit_and_mask : (k a : ℕ) → bit_and a (2 ^ k - 1) ≡ a % 2 ^ k
bit_and_mask zero a = rw bit_and-zero (omega arith)
bit_and_mask (suc k) a = omega (
  arith,
  bit_and-halve a (2 ^ suc k - 1),
  halve_mask k,
  pow-suc 2 k,
  one-le-pow k 2,
  ap (λ (t : ℕ). bit_and (a / 2) t) (halve_mask k),
  bit_and_mask k (a / 2),
  halve_mod a k,
)
