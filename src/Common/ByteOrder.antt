-- ===== src/Common/ByteOrder.antt =====
-- The order of byte strings is a strict linear order, and lists that it sorts.
use Prim.Native.Nat.{Ordering}
use mathlib.Core.Path.{◌≡◌, refl}
use mathlib.Core.Logic.{◌⊎◌, inl, inr}
use mathlib.Core.List.{List, [], ◌∷◌}
use native.Mathlib.Omega.{arith}
use gmdb.Common.Lists.{Bytes, All}
use gmdb.Common.Order.{compare_bytes}

pub compare_bytes_eq : (a b : Bytes) → compare_bytes a b ≡ Ordering.eq → a ≡ b
unfolding compare_bytes
compare_bytes_eq [] [] h = refl
compare_bytes_eq [] (y ∷ b) h = cc
compare_bytes_eq (x ∷ a) [] h = cc
compare_bytes_eq (x ∷ a) (y ∷ b) h = let rest = compare_bytes_eq a b in ground (arith, rest)

pub compare_bytes_trans :
    (a b c : Bytes)
    → compare_bytes a b ≡ Ordering.lt
    → compare_bytes b c ≡ Ordering.lt
    → compare_bytes a c ≡ Ordering.lt
unfolding compare_bytes
compare_bytes_trans [] [] c h k = cc
compare_bytes_trans [] (y ∷ b) [] h k = cc
compare_bytes_trans [] (y ∷ b) (z ∷ c) h k = refl
compare_bytes_trans (x ∷ a) [] c h k = cc
compare_bytes_trans (x ∷ a) (y ∷ b) [] h k = cc
compare_bytes_trans (x ∷ a) (y ∷ b) (z ∷ c) h k = ground (arith, compare_bytes_trans a b c)

pub compare_bytes_flip :
    (a b : Bytes) → compare_bytes a b ≡ Ordering.gt → compare_bytes b a ≡ Ordering.lt
unfolding compare_bytes
compare_bytes_flip [] [] h = cc
compare_bytes_flip [] (y ∷ b) h = cc
compare_bytes_flip (x ∷ a) [] h = refl
compare_bytes_flip (x ∷ a) (y ∷ b) h = ground (arith, compare_bytes_flip a b)

pub compare_bytes_flipped :
    (a b : Bytes) → compare_bytes a b ≡ Ordering.lt → compare_bytes b a ≡ Ordering.gt
unfolding compare_bytes
compare_bytes_flipped [] [] h = cc
compare_bytes_flipped [] (y ∷ b) h = refl
compare_bytes_flipped (x ∷ a) [] h = cc
compare_bytes_flipped (x ∷ a) (y ∷ b) h = ground (arith, compare_bytes_flipped a b)

-- Sorted, with no value twice.
abbrev pub Above : Bytes → List Bytes → Type 0
Above v = All (λ w. compare_bytes v w ≡ Ordering.lt)

abbrev pub IsSorted : List Bytes → Type 0
IsSorted [] = Unit
IsSorted (v ∷ vs) = Above v vs × IsSorted vs

pub Above-trans :
    (t v : Bytes) (vs : List Bytes) → compare_bytes t v ≡ Ordering.lt → Above v vs → Above t vs
Above-trans t v [] h k = tt
Above-trans t v (w ∷ vs) h k = (compare_bytes_trans t v w h k.0, Above-trans t v vs h k.1)

pub Ordering-cases : (o : Ordering) → (o ≡ Ordering.lt) ⊎ ((o ≡ Ordering.eq) ⊎ (o ≡ Ordering.gt))
Ordering-cases Ordering.lt = inl refl
Ordering-cases Ordering.eq = inr (inl refl)
Ordering-cases Ordering.gt = inr (inr refl)

pub compare_bytes_self : (a : Bytes) → compare_bytes a a ≡ Ordering.eq
unfolding compare_bytes
compare_bytes_self [] = refl
compare_bytes_self (x ∷ a) = ground (arith, compare_bytes_self a)
