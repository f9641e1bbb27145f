-- ===== src/Common/Buffer/Digits.antt =====
-- The bits of a little-endian number are the bits of its bytes.
use Prim.Native.Nat.{ℕ, zero, suc, ◌+◌, ◌-◌, ◌*◌, ◌/◌, ◌%◌, ◌^◌, ◌<◌}
use mathlib.Core.Path.{◌≡◌, refl, ap, sym, ◌∙◌}
use Prim.Native.Nat.add
use mathlib.Core.List.{[], ◌∷◌}
use native.Mathlib.Nat.{pow-suc, one-le-pow}
use native.Mathlib.Omega.{arith}
use gmdb.Common.Tests.{ltb, if◌then◌else◌}
use gmdb.Common.Lists.{Bytes, AllBytes, get_or, take}
use gmdb.Common.Bits.Single.{has_bit, has_bit-zero}
use gmdb.Common.Buffer.{from_le, slice}

-- A word of `n` low bits below the bits of `x`.
has_bit-join :
    (n b x j : ℕ)
    → b < 2 ^ n
    → has_bit (b + 2 ^ n * x) j ≡ (if ltb j n then has_bit b j else has_bit x (j - n))
unfolding has_bit
has_bit-join zero b x j h = let only : b + 2 ^ 0 * x ≡ x = omega arith in rw only (ground arith)
has_bit-join (suc n) b x zero h =
    let twice : 2 ^ suc n * x ≡ 2 * (2 ^ n * x) =
      omega (arith, ap (λ (t : ℕ). t * x) (pow-suc 2 n)) in
    let low : (b + 2 ^ suc n * x) % 2 ≡ b % 2 = omega arith in rw low (ground arith)
has_bit-join (suc n) b x (suc j) h =
    let twice : 2 ^ suc n * x ≡ 2 * (2 ^ n * x) =
      omega (arith, ap (λ (t : ℕ). t * x) (pow-suc 2 n)) in
    let high : (b + 2 ^ suc n * x) / 2 ≡ b / 2 + 2 ^ n * x = omega arith in
    rw high (ground (arith, has_bit-join n (b / 2) x j (omega (arith, pow-suc 2 n))))

get_or-small : (bs : Bytes) (i : ℕ) → AllBytes bs → get_or bs i 0 < 256
get_or-small [] i h = omega arith
get_or-small (b ∷ bs) zero h = h.0
get_or-small (b ∷ bs) (suc i) h = get_or-small bs i h.1

pub has_bit-from_le :
    (bs : Bytes) (i j : ℕ)
    → AllBytes bs
    → j < 8
    → has_bit (from_le bs) (i * 8 + j) ≡ has_bit (get_or bs i 0) j
unfolding from_le
has_bit-from_le [] i j h k = has_bit-zero (i * 8 + j) ∙ sym (has_bit-zero j)
has_bit-from_le (b ∷ bs) zero j h k = ground (arith, has_bit-join 8 b (from_le bs) (0 * 8 + j) h.0)
has_bit-from_le (b ∷ bs) (suc i) j h k =
    let place : suc i * 8 + j - 8 ≡ i * 8 + j = omega arith in
    ground (
      arith,
      place,
      has_bit-join 8 b (from_le bs) (suc i * 8 + j) h.0,
      has_bit-from_le bs i j h.1 k,
    )

get_or-take : (n i : ℕ) (bs : Bytes) → i < n → get_or (take n bs) i 0 ≡ get_or bs i 0
get_or-take zero i bs h = absurd (omega arith)
get_or-take (suc n) i [] h = refl
get_or-take (suc n) zero (b ∷ bs) h = refl
get_or-take (suc n) (suc i) (b ∷ bs) h = get_or-take n i bs (omega arith)

get_or-slice :
    (off n i : ℕ) (bs : Bytes) → i < n → get_or (slice off n bs) i 0 ≡ get_or bs (off + i) 0
get_or-slice zero n i bs h = rw add.zero (get_or-take n i bs h)
get_or-slice (suc off) n i [] h = get_or-take n i [] h
get_or-slice (suc off) n i (b ∷ bs) h = rw add.suc (get_or-slice off n i bs h)

AllBytes-take : (n : ℕ) (bs : Bytes) → AllBytes bs → AllBytes (take n bs)
AllBytes-take zero bs h = tt
AllBytes-take (suc n) [] h = tt
AllBytes-take (suc n) (b ∷ bs) h = (h.0, AllBytes-take n bs h.1)

AllBytes-slice : (off n : ℕ) (bs : Bytes) → AllBytes bs → AllBytes (slice off n bs)
AllBytes-slice zero n bs h = AllBytes-take n bs h
AllBytes-slice (suc off) n [] h = AllBytes-take n [] h
AllBytes-slice (suc off) n (b ∷ bs) h = AllBytes-slice off n bs h.1

pub has_bit-slice :
    (off n i j : ℕ) (bs : Bytes)
    → AllBytes bs
    → i < n
    → j < 8
    → has_bit (from_le (slice off n bs)) (i * 8 + j) ≡ has_bit (get_or bs (off + i) 0) j
has_bit-slice off n i j bs h k l =
    has_bit-from_le (slice off n bs) i j (AllBytes-slice off n bs h) l
    ∙ ap (λ (b : ℕ). has_bit b j) (get_or-slice off n i bs k)

from_le-take-lt : (n : ℕ) (bs : Bytes) → AllBytes bs → from_le (take n bs) < 256 ^ n
unfolding from_le
from_le-take-lt zero bs h = omega arith
from_le-take-lt (suc n) [] h = omega (arith, one-le-pow (suc n) 256)
from_le-take-lt (suc n) (b ∷ bs) h =
    let low : b < 256 = h.0 in omega (arith, from_le-take-lt n bs h.1, pow-suc 256 n)

pub from_le-slice-lt : (off n : ℕ) (bs : Bytes) → AllBytes bs → from_le (slice off n bs) < 256 ^ n
from_le-slice-lt zero n bs h = from_le-take-lt n bs h
from_le-slice-lt (suc off) n [] h = from_le-take-lt n [] h
from_le-slice-lt (suc off) n (b ∷ bs) h = from_le-slice-lt off n bs h.1
