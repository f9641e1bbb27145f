-- ===== src/Page/Subpage/Sets.antt =====
-- The sorted lists behind subpages as sets of values (internal/page/subpage.go).
use gmdb.Common.{List, [], ◌∷◌, Bool, true, false, Bytes, ◌≡◌, ◌≢◌, inl, inr, refl, sym, ◌∙◌}
use Prim.Native.Nat.{Ordering}
use gmdb.Common.Order.{compare_bytes}
use gmdb.Common.ByteOrder.{compare_bytes_self}
use gmdb.Page.Subpage.Sorted.{
  place, put_sorted, drop_sorted, IsSorted, Above, Above-trans, Ordering-cases, compare_bytes_eq,
  compare_bytes_trans, compare_bytes_flip, compare_bytes_flipped,
}

unfoldable pub contains : Bytes → List Bytes → Bool
unfolding place
contains t vs = (place t vs).1

module _ (t v : Bytes) (vs : List Bytes) where
  contains_lt : compare_bytes v t ≡ Ordering.lt → contains t (v ∷ vs) ≡ contains t vs
  unfolding contains place
  contains_lt h = rw (contains, place, h)

  contains_eq : compare_bytes v t ≡ Ordering.eq → contains t (v ∷ vs) ≡ true
  unfolding contains place
  contains_eq h = rw (contains, place, h)

  contains_gt : compare_bytes v t ≡ Ordering.gt → contains t (v ∷ vs) ≡ false
  unfolding contains place
  contains_gt h = rw (contains, place, h)

  put_sorted_lt : compare_bytes v t ≡ Ordering.lt → put_sorted t (v ∷ vs) ≡ v ∷ put_sorted t vs
  unfolding put_sorted
  put_sorted_lt h = rw (put_sorted, h)

  put_sorted_eq : compare_bytes v t ≡ Ordering.eq → put_sorted t (v ∷ vs) ≡ v ∷ vs
  unfolding put_sorted
  put_sorted_eq h = rw (put_sorted, h)

  put_sorted_gt : compare_bytes v t ≡ Ordering.gt → put_sorted t (v ∷ vs) ≡ t ∷ v ∷ vs
  unfolding put_sorted
  put_sorted_gt h = rw (put_sorted, h)

pub contains-put_sorted_self : (t : Bytes) (vs : List Bytes) → contains t (put_sorted t vs) ≡ true
contains-put_sorted_self t [] = unfold put_sorted in contains_eq t t [] (compare_bytes_self t)
contains-put_sorted_self t (v ∷ vs) = elim (Ordering-cases (compare_bytes v t)) [
  | inl lt ↦
      rw (put_sorted_lt t v vs lt, contains_lt t v (put_sorted t vs) lt)
        (contains-put_sorted_self t vs)
  | inr (inl eq) ↦ rw (put_sorted_eq t v vs eq) (contains_eq t v vs eq)
  | inr (inr gt) ↦ rw (put_sorted_gt t v vs gt) (contains_eq t t (v ∷ vs) (compare_bytes_self t))
]

-- A value that sorts before the first is not there.
contains_before :
    (u v : Bytes) (vs : List Bytes) → compare_bytes u v ≡ Ordering.lt → contains u (v ∷ vs) ≡ false
contains_before u v vs h = contains_gt u v vs (compare_bytes_flipped u v h)

pub contains-put_sorted_other :
    (u t : Bytes) (vs : List Bytes) → u ≢ t → contains u (put_sorted t vs) ≡ contains u vs
contains-put_sorted_other u t [] h = elim (Ordering-cases (compare_bytes t u)) [
  | inl lt ↦ unfold put_sorted in contains_lt u t [] lt
  | inr (inl eq) ↦ absurd (h (sym (compare_bytes_eq t u eq)))
  | inr (inr gt) ↦ unfold put_sorted contains place in contains_gt u t [] gt
]
contains-put_sorted_other u t (v ∷ vs) h = elim (Ordering-cases (compare_bytes v t)) [
  | inl lt ↦ rw (put_sorted_lt t v vs lt) (elim (Ordering-cases (compare_bytes v u)) [
    | inl below ↦
        contains_lt u v (put_sorted t vs) below
        ∙ contains-put_sorted_other u t vs h
        ∙ sym (contains_lt u v vs below)
    | inr (inl same) ↦ contains_eq u v (put_sorted t vs) same ∙ sym (contains_eq u v vs same)
    | inr (inr above) ↦ contains_gt u v (put_sorted t vs) above ∙ sym (contains_gt u v vs above)
  ])
  | inr (inl eq) ↦ rw (put_sorted_eq t v vs eq)
  | inr (inr gt) ↦ rw (put_sorted_gt t v vs gt) (elim (Ordering-cases (compare_bytes t u)) [
    | inl below ↦ contains_lt u t (v ∷ vs) below
    | inr (inl same) ↦ absurd (h (sym (compare_bytes_eq t u same)))
    | inr (inr above) ↦
        let first =
          compare_bytes_trans u t v (compare_bytes_flip t u above) (compare_bytes_flip v t gt) in
        contains_gt u t (v ∷ vs) above ∙ sym (contains_before u v vs first)
  ])
]

contains-Above : (u : Bytes) (vs : List Bytes) → Above u vs → contains u vs ≡ false
contains-Above u [] h = unfold contains place in refl
contains-Above u (v ∷ vs) h = contains_before u v vs h.0

module _ (t v : Bytes) (vs : List Bytes) where
  drop_sorted_lt : compare_bytes v t ≡ Ordering.lt → drop_sorted t (v ∷ vs) ≡ v ∷ drop_sorted t vs
  unfolding drop_sorted
  drop_sorted_lt h = rw (drop_sorted, h)

  drop_sorted_eq : compare_bytes v t ≡ Ordering.eq → drop_sorted t (v ∷ vs) ≡ vs
  unfolding drop_sorted
  drop_sorted_eq h = rw (drop_sorted, h)

  drop_sorted_gt : compare_bytes v t ≡ Ordering.gt → drop_sorted t (v ∷ vs) ≡ v ∷ vs
  unfolding drop_sorted
  drop_sorted_gt h = rw (drop_sorted, h)

pub contains-drop_sorted_self :
    (t : Bytes) (vs : List Bytes) → IsSorted vs → contains t (drop_sorted t vs) ≡ false
contains-drop_sorted_self t [] s = unfold drop_sorted contains place in refl
contains-drop_sorted_self t (v ∷ vs) s = elim (Ordering-cases (compare_bytes v t)) [
  | inl lt ↦
      rw (drop_sorted_lt t v vs lt, contains_lt t v (drop_sorted t vs) lt)
        (contains-drop_sorted_self t vs s.1)
  | inr (inl eq) ↦
      rw (drop_sorted_eq t v vs eq) (contains-Above t vs (rw (compare_bytes_eq v t eq) at s.0))
  | inr (inr gt) ↦ rw (drop_sorted_gt t v vs gt) (contains_gt t v vs gt)
]

pub contains-drop_sorted_other :
    (u t : Bytes) (vs : List Bytes)
    → IsSorted vs
    → u ≢ t
    → contains u (drop_sorted t vs) ≡ contains u vs
contains-drop_sorted_other u t [] s h = unfold drop_sorted in refl
contains-drop_sorted_other u t (v ∷ vs) s h = elim (Ordering-cases (compare_bytes v t)) [
  | inl lt ↦ rw (drop_sorted_lt t v vs lt) (elim (Ordering-cases (compare_bytes v u)) [
    | inl below ↦
        contains_lt u v (drop_sorted t vs) below
        ∙ contains-drop_sorted_other u t vs s.1 h
        ∙ sym (contains_lt u v vs below)
    | inr (inl same) ↦ contains_eq u v (drop_sorted t vs) same ∙ sym (contains_eq u v vs same)
    | inr (inr above) ↦ contains_gt u v (drop_sorted t vs) above ∙ sym (contains_gt u v vs above)
  ])
  | inr (inl eq) ↦ rw (drop_sorted_eq t v vs eq) (elim (Ordering-cases (compare_bytes v u)) [
    | inl below ↦ sym (contains_lt u v vs below)
    | inr (inl same) ↦ absurd (h (sym (compare_bytes_eq v u same) ∙ compare_bytes_eq v t eq))
    | inr (inr above) ↦
        contains-Above u vs (Above-trans u v vs (compare_bytes_flip v u above) s.0)
        ∙ sym (contains_gt u v vs above)
  ])
  | inr (inr gt) ↦ rw (drop_sorted_gt t v vs gt)
]
