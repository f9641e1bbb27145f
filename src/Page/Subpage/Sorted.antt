-- ===== src/Page/Subpage/Sorted.antt =====
-- Sets of values as sorted lists: what the subpage's operations mean (internal/page/subpage.go).
use gmdb.Common.{
  ℕ, suc, List, [], ◌∷◌, ◌++◌, Bool, true, false, Bytes, All, length, ◌≡◌, inl, inr, refl, ap,
}
use Prim.Native.Nat.{Ordering}
use gmdb.Common.Order.{compare_bytes}
pub use gmdb.Common.ByteOrder.{
  compare_bytes_eq, compare_bytes_trans, compare_bytes_flip, compare_bytes_flipped, Ordering-cases,
  Above, IsSorted, Above-trans,
}

-- Where a value stands in a sorted list, or belongs, and whether it is there.
unfoldable pub place : Bytes → List Bytes → ℕ × Bool
place t [] = (0, false)
place t (v ∷ vs) = elim (compare_bytes v t) [
  | Ordering.eq ↦ (0, true)
  | Ordering.gt ↦ (0, false)
  | Ordering.lt ↦ (suc (place t vs).0, (place t vs).1)
]

unfoldable pub put_sorted : Bytes → List Bytes → List Bytes
put_sorted t [] = t ∷ []
put_sorted t (v ∷ vs) = elim (compare_bytes v t) [
  | Ordering.eq ↦ v ∷ vs
  | Ordering.gt ↦ t ∷ v ∷ vs
  | Ordering.lt ↦ v ∷ put_sorted t vs
]

unfoldable pub drop_sorted : Bytes → List Bytes → List Bytes
drop_sorted t [] = []
drop_sorted t (v ∷ vs) = elim (compare_bytes v t) [
  | Ordering.eq ↦ vs
  | Ordering.gt ↦ v ∷ vs
  | Ordering.lt ↦ v ∷ drop_sorted t vs
]

-- A value put into a list, or dropped from it, keeps what holds of all.
pub All-put_sorted :
    (P : Bytes → Type 0) (t : Bytes) (vs : List Bytes) → P t → All P vs → All P (put_sorted t vs)
unfolding put_sorted
All-put_sorted P t [] p h = (p, tt)
All-put_sorted P t (v ∷ vs) p h =
    elim (compare_bytes v t)
      as (λ o. All P (elim o [
        | Ordering.eq ↦ v ∷ vs
        | Ordering.gt ↦ t ∷ v ∷ vs
        | Ordering.lt ↦ v ∷ put_sorted t vs
      ])) [
        | Ordering.eq ↦ h
        | Ordering.gt ↦ (p, h)
        | Ordering.lt ↦ (h.0, All-put_sorted P t vs p h.1)
      ]

pub All-drop_sorted :
    (P : Bytes → Type 0) (t : Bytes) (vs : List Bytes) → All P vs → All P (drop_sorted t vs)
unfolding drop_sorted
All-drop_sorted P t [] h = tt
All-drop_sorted P t (v ∷ vs) h =
    elim (compare_bytes v t)
      as (λ o.
        All P (elim o [
          | Ordering.eq ↦ vs
          | Ordering.gt ↦ v ∷ vs
          | Ordering.lt ↦ v ∷ drop_sorted t vs
        ])) [
          | Ordering.eq ↦ h.1
          | Ordering.gt ↦ h
          | Ordering.lt ↦ (h.0, All-drop_sorted P t vs h.1)
        ]

pub put_sorted-IsSorted : (t : Bytes) (vs : List Bytes) → IsSorted vs → IsSorted (put_sorted t vs)
unfolding put_sorted
put_sorted-IsSorted t [] h = (tt, tt)
put_sorted-IsSorted t (v ∷ vs) h = elim (Ordering-cases (compare_bytes v t)) [
  | inl lt ↦
      rw (put_sorted, lt)
        (
          All-put_sorted (λ w. compare_bytes v w ≡ Ordering.lt) t vs lt h.0,
          put_sorted-IsSorted t vs h.1,
        )
  | inr (inl eq) ↦ rw (put_sorted, eq) h
  | inr (inr gt) ↦
      let first = compare_bytes_flip v t gt in
      rw (put_sorted, gt) ((first, Above-trans t v vs first h.0), h)
]

pub drop_sorted-IsSorted : (t : Bytes) (vs : List Bytes) → IsSorted vs → IsSorted (drop_sorted t vs)
unfolding drop_sorted
drop_sorted-IsSorted t [] h = tt
drop_sorted-IsSorted t (v ∷ vs) h = elim (Ordering-cases (compare_bytes v t)) [
  | inl lt ↦
      rw (drop_sorted, lt)
        (
          All-drop_sorted (λ w. compare_bytes v w ≡ Ordering.lt) t vs h.0,
          drop_sorted-IsSorted t vs h.1,
        )
  | inr (inl eq) ↦ rw (drop_sorted, eq) h.1
  | inr (inr gt) ↦ rw (drop_sorted, gt) h
]

-- Where a value stands, or would stand.
pub data Located (t : Bytes) (vs : List Bytes) : Type 0 where
  missing :
      (xs ys : List Bytes)
      → vs ≡ xs ++ ys
      → place t vs ≡ (length xs, false)
      → put_sorted t vs ≡ xs ++ t ∷ ys
      → drop_sorted t vs ≡ vs
      → Located t vs
  present :
      (xs zs : List Bytes)
      → vs ≡ xs ++ t ∷ zs
      → place t vs ≡ (length xs, true)
      → put_sorted t vs ≡ vs
      → drop_sorted t vs ≡ xs ++ zs
      → Located t vs

Located-cons :
    (t v : Bytes) (vs : List Bytes)
    → compare_bytes v t ≡ Ordering.lt
    → Located t vs
    → Located t (v ∷ vs)
unfolding place put_sorted drop_sorted
Located-cons t v vs lt (missing xs ys a b c d) =
    missing (v ∷ xs) ys (ap (λ (l : List Bytes). v ∷ l) a) (rw (place, lt, b))
      (rw (put_sorted, lt, c)) (rw (drop_sorted, lt, d))
Located-cons t v vs lt (present xs zs a b c d) =
    present (v ∷ xs) zs (ap (λ (l : List Bytes). v ∷ l) a) (rw (place, lt, b))
      (rw (put_sorted, lt, c)) (rw (drop_sorted, lt, d))

pub locate : (t : Bytes) (vs : List Bytes) → Located t vs
unfolding place put_sorted drop_sorted
locate t [] = missing [] [] refl refl refl refl
locate t (v ∷ vs) = elim (Ordering-cases (compare_bytes v t)) [
  | inl lt ↦ Located-cons t v vs lt (locate t vs)
  | inr (inl eq) ↦
      let same = compare_bytes_eq v t eq in
      present [] vs (ap (λ (w : Bytes). w ∷ vs) same) (rw (place, eq)) (rw (put_sorted, eq))
        (rw (drop_sorted, eq))
  | inr (inr gt) ↦
      missing [] (v ∷ vs) refl (rw (place, gt)) (rw (put_sorted, gt)) (rw (drop_sorted, gt))
]
