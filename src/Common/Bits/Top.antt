-- ===== src/Common/Bits/Top.antt =====
-- Exclusive or with the top digit of a word.
use Prim.Native.Nat.{
  ℕ, zero, suc, ◌+◌, ◌-◌, ◌*◌, ◌/◌, ◌%◌, ◌^◌, ◌<◌, bit_xor, bit_xor-bitwise, differ,
}
use mathlib.Core.Path.{◌≡◌, refl}
use native.Mathlib.Omega.{arith}
use native.Mathlib.Nat.{pow-suc}
use gmdb.Common.Tests.{ltb, if◌then◌else◌}
use gmdb.Common.Bits.Halving.{halve}

differ-zero : (a : ℕ) → differ a 0 ≡ a
differ-zero zero = refl
differ-zero (suc a) = refl

bit_xor-halve : (a b : ℕ) → bit_xor a b ≡ bit_xor (a / 2) (b / 2) * 2 + differ (a % 2) (b % 2)
bit_xor-halve zero b = omega (arith, bit_xor-bitwise 0 b, bit_xor-bitwise 0 (b / 2))
bit_xor-halve (suc a) b = omega (
  arith,
  halve (λ y. y) differ a b,
  bit_xor-bitwise (suc a / 2) (b / 2),
  bit_xor-bitwise (suc a) b,
)

-- It is an addition or a subtraction.
pub bit_xor-top :
    (n x : ℕ) → x < 2 ^ suc n → bit_xor x (2 ^ n) ≡ (if ltb x (2 ^ n) then x + 2 ^ n else x - 2 ^ n)
bit_xor-top zero zero h = refl
bit_xor-top zero (suc zero) h = refl
bit_xor-top zero (suc (suc x)) h = absurd (omega arith)
bit_xor-top (suc n) x h =
    let twice = pow-suc 2 n in
    let more = pow-suc 2 (suc n) in
    let half : 2 ^ suc n / 2 ≡ 2 ^ n = omega arith in
    let even : 2 ^ suc n % 2 ≡ 0 = omega arith in
    let below = bit_xor-top n (x / 2) (omega arith) in
    let split = bit_xor-halve x (2 ^ suc n) in
    let digit = differ-zero (x % 2) in rw (split, half, even, digit, below) (ground arith)
