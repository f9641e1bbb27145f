-- ===== src/Common/Buffer/Slices.antt =====
-- Slices of a buffer of which one element was written, and when the number of a slice is not 0.
use Prim.Native.Nat.{ℕ, zero, suc, ◌+◌, ◌<◌, ◌≤◌}
use Prim.Native.Nat.add
use mathlib.Core.Path.{◌≡◌, refl, ap}
use mathlib.Core.Logic.{◌≢◌}
use mathlib.Core.List.{[], ◌∷◌}
use native.Mathlib.Omega.{arith}
use gmdb.Common.Lists.{Bytes, take, set, get_or}
use gmdb.Common.Buffer.{from_le, slice}

take-set_after : (n i v : ℕ) (xs : Bytes) → n ≤ i → take n (set xs i v) ≡ take n xs
take-set_after zero i v xs h = refl
take-set_after (suc n) i v [] h = refl
take-set_after (suc n) zero v (x ∷ xs) h = absurd (omega arith)
take-set_after (suc n) (suc i) v (x ∷ xs) h =
    ap (λ (t : Bytes). x ∷ t) (take-set_after n i v xs (omega arith))

-- A write outside a slice leaves it.
pub slice-set_after :
    (off n i v : ℕ) (xs : Bytes) → off + n ≤ i → slice off n (set xs i v) ≡ slice off n xs
slice-set_after zero n i v xs h = take-set_after n i v xs (omega arith)
slice-set_after (suc off) n i v [] h = refl
slice-set_after (suc off) n zero v (x ∷ xs) h = absurd (omega arith)
slice-set_after (suc off) n (suc i) v (x ∷ xs) h = slice-set_after off n i v xs (omega arith)

pub slice-set_before :
    (off n i v : ℕ) (xs : Bytes) → i < off → slice off n (set xs i v) ≡ slice off n xs
slice-set_before zero n i v xs h = absurd (omega arith)
slice-set_before (suc off) n i v [] h = refl
slice-set_before (suc off) n zero v (x ∷ xs) h = refl
slice-set_before (suc off) n (suc i) v (x ∷ xs) h = slice-set_before off n i v xs (omega arith)

from_le-take_pos : (n j : ℕ) (xs : Bytes) → j < n → get_or xs j 0 ≢ 0 → from_le (take n xs) ≢ 0
unfolding from_le
from_le-take_pos zero j xs h p = absurd (omega arith)
from_le-take_pos (suc n) j [] h p = absurd (omega arith)
from_le-take_pos (suc n) zero (x ∷ xs) h p = omega arith
from_le-take_pos (suc n) (suc j) (x ∷ xs) h p =
    omega (arith, from_le-take_pos n j xs (omega arith) p)

-- A slice with a byte other than 0 stands for a number other than 0.
pub from_le-slice_pos :
    (off n j : ℕ) (xs : Bytes) → j < n → get_or xs (off + j) 0 ≢ 0 → from_le (slice off n xs) ≢ 0
from_le-slice_pos zero n j xs h p = from_le-take_pos n j xs h (rw add.zero at p)
from_le-slice_pos (suc off) n j [] h p = absurd (p refl)
from_le-slice_pos (suc off) n j (x ∷ xs) h p = from_le-slice_pos off n j xs h (rw add.suc at p)
