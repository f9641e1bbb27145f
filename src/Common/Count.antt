-- ===== src/Common/Count.antt =====
-- Sums of weights over a list, and a write at one place.
use Prim.Native.Nat.{ℕ, zero, suc, ◌+◌, ◌≤◌, ◌<◌}
use mathlib.Core.Path.{◌≡◌}
use mathlib.Core.List.{List, [], ◌∷◌}
use native.Mathlib.Omega.{arith}
use gmdb.Common.Lists.{length, get_or, set}
use native.Mathlib.Decide.{dec_lt}

module _ {ℓ} {A : Type ℓ} where
  unfoldable pub total : (A → ℕ) → List A → ℕ
  total w [] = 0
  total w (x ∷ xs) = w x + total w xs

  pub total-set :
      (w : A → ℕ) (xs : List A) (i : ℕ) (v d : A)
      → i < length xs
      → total w (set xs i v) + w (get_or xs i d) ≡ total w xs + w v
  unfolding total
  total-set w [] i v d h = absurd (omega arith)
  total-set w (x ∷ xs) zero v d h = omega arith
  total-set w (x ∷ xs) (suc i) v d h = omega (arith, total-set w xs i v d (omega arith))

  pub total_mono : (v w : A → ℕ) (xs : List A) → ((x : A) → v x ≤ w x) → total v xs ≤ total w xs
  unfolding total
  total_mono v w [] h = omega arith
  total_mono v w (x ∷ xs) h = omega (arith, h x, total_mono v w xs h)

  pub total-le-length : (w : A → ℕ) (xs : List A) → ((x : A) → w x ≤ 1) → total w xs ≤ length xs
  unfolding total
  total-le-length w [] h = omega arith
  total-le-length w (x ∷ xs) h = omega (arith, h x, total-le-length w xs h)

  pub get_or-le-total :
      (w : A → ℕ) (xs : List A) (i : ℕ) (d : A) → i < length xs → w (get_or xs i d) ≤ total w xs
  unfolding total
  get_or-le-total w [] i d h = absurd (omega arith)
  get_or-le-total w (x ∷ xs) zero d h = omega arith
  get_or-le-total w (x ∷ xs) (suc i) d h = omega (arith, get_or-le-total w xs i d (omega arith))

  -- Where the sum is not 0, some place has a weight.
  pub heavy :
      (w : A → ℕ) (xs : List A) (d : A)
      → 0 < total w xs
      → (i : ℕ) × (i < length xs) × (0 < w (get_or xs i d))
  unfolding total
  heavy w [] d h = absurd (omega arith)
  heavy w (x ∷ xs) d h = elim (dec_lt 0 (w x)) [
    | yes here ↦ (0, omega arith, here)
    | no light ↦
        let (i, inside, weight) = heavy w xs d (omega arith) in (suc i, omega arith, weight)
  ]
