-- ===== src/Page/Subpage/Search.antt =====
-- The search in a subpage (internal/page/subpage.go, Search).
use gmdb.Common.{
  ℕ, zero, suc, ◌+◌, ◌*◌, ◌/◌, ◌≤◌, ◌<◌, List, [], ◌∷◌, ◌++◌, true, false, Bytes, ok, All, ltb,
  ◌==◌, ◌>>=◌, length, get_or, append_assoc, ◌≡◌, inl, inr, refl, sym, ap, arith,
}
use Prim.Native.Nat.{Ordering}
use native.Mathlib.Decide.{dec_lt}
use gmdb.Common.Order.{compare_bytes}
use gmdb.Page.Subpage.{slice_of}
use gmdb.Page.Subpage.Edit.{search_fixed, search_variable, search}
use gmdb.Page.Subpage.Image.{
  Sized, entry, body, image, header, reader, length-header, uint16_of-entry, slice_of-entry,
  length-entry, slice_of-body,
}
use gmdb.Page.Subpage.Sorted.{
  place, IsSorted, Above, Ordering-cases, compare_bytes_eq, compare_bytes_trans, compare_bytes_flip,
  compare_bytes_flipped,
}

search_variable-place :
    (front : Bytes) (vs : List Bytes) (t : Bytes) (i off : ℕ)
    → length front ≡ off
    → All (Sized 0) vs
    → search_variable (front ++ body 0 vs) t (length vs) i off
      ≡ ok (i + (place t vs).0, (place t vs).1)
unfolding search_variable body place
search_variable-place front [] t i off e h = let same : i + 0 ≡ i = omega arith in rw same
search_variable-place front (v ∷ vs) t i off e h =
    let rest = body 0 vs in
    let len = uint16_of-entry front rest v off e h.0 in
    let val = slice_of-entry front rest v off e in
    let later =
      search_variable-place (front ++ entry 0 v) vs t (i + 1) (off + 2 + length v)
        (length-entry front rest v off e) h.1 in
    let same : i + 0 ≡ i = omega arith in
    let next : i + suc (place t vs).0 ≡ i + 1 + (place t vs).0 = omega arith in
    elim (Ordering-cases (compare_bytes v t)) [
      | inl lt ↦ rw (len, val) (rw (◌>>=◌, lt, place) (rw next (rw (append_assoc front) at later)))
      | inr (inl eq) ↦ rw (len, val) (rw (◌>>=◌, eq, place) (rw same))
      | inr (inr gt) ↦ rw (len, val) (rw (◌>>=◌, gt, place) (rw same))
    ]

-- What the binary search keeps: the values before `lo` sort before the target, those from `hi` on behind it.
abbrev Before : List Bytes → Bytes → ℕ → Type 0
Before vs t lo = (j : ℕ) → j < lo → compare_bytes (get_or vs j []) t ≡ Ordering.lt

abbrev Behind : List Bytes → Bytes → ℕ → Type 0
Behind vs t hi = (j : ℕ) → hi ≤ j → j < length vs → compare_bytes (get_or vs j []) t ≡ Ordering.gt

place_missing :
    (vs : List Bytes) (t : Bytes) (i : ℕ)
    → i ≤ length vs
    → Before vs t i
    → Behind vs t i
    → place t vs ≡ (i, false)
unfolding place
place_missing [] t zero h b a = refl
place_missing [] t (suc i) h b a = absurd (omega arith)
place_missing (v ∷ vs) t zero h b a = rw (place, a 0 (omega arith) (omega arith))
place_missing (v ∷ vs) t (suc i) h b a =
    let later =
      place_missing vs t i (omega arith) (λ j k. b (suc j) (omega arith))
        (λ j k l. a (suc j) (omega arith) (omega arith)) in
    rw (place, b 0 (omega arith), later)

place_present :
    (vs : List Bytes) (t : Bytes) (i : ℕ)
    → i < length vs
    → Before vs t i
    → compare_bytes (get_or vs i []) t ≡ Ordering.eq
    → place t vs ≡ (i, true)
unfolding place
place_present [] t i h b e = absurd (omega arith)
place_present (v ∷ vs) t zero h b e = rw (place, e)
place_present (v ∷ vs) t (suc i) h b e =
    let later = place_present vs t i (omega arith) (λ j k. b (suc j) (omega arith)) e in
    rw (place, b 0 (omega arith), later)

Above-get_or :
    (v : Bytes) (vs : List Bytes) (j : ℕ)
    → Above v vs
    → j < length vs
    → compare_bytes v (get_or vs j []) ≡ Ordering.lt
Above-get_or v [] j h k = absurd (omega arith)
Above-get_or v (w ∷ vs) zero h k = h.0
Above-get_or v (w ∷ vs) (suc j) h k = Above-get_or v vs j h.1 (omega arith)

IsSorted-get_or :
    (vs : List Bytes) (i j : ℕ)
    → IsSorted vs
    → i < j
    → j < length vs
    → compare_bytes (get_or vs i []) (get_or vs j []) ≡ Ordering.lt
IsSorted-get_or [] i j h k l = absurd (omega arith)
IsSorted-get_or (v ∷ vs) i zero h k l = absurd (omega arith)
IsSorted-get_or (v ∷ vs) zero (suc j) h k l = Above-get_or v vs j h.0 (omega arith)
IsSorted-get_or (v ∷ vs) (suc i) (suc j) h k l =
    IsSorted-get_or vs i j h.1 (omega arith) (omega arith)

module _ (stride : ℕ) (vs : List Bytes) (t : Bytes) (sized : All (Sized (suc stride)) vs)
    (sorted : IsSorted vs) where
  read_value :
      (i : ℕ)
      → i < length vs
      → slice_of (image (suc stride) vs) (4 + i * suc stride) (4 + i * suc stride + suc stride)
        ≡ ok (get_or vs i [])
  unfolding image
  read_value i h =
      let head = header (length vs) (length (body (suc stride) vs)) in
      slice_of-body stride head vs 4 i (length-header (length vs) (length (body (suc stride) vs)))
        sized h

  mid-Before :
      (mid : ℕ)
      → mid < length vs
      → compare_bytes (get_or vs mid []) t ≡ Ordering.lt
      → Before vs t (mid + 1)
  mid-Before mid h lt j k = elim (dec_lt j mid) [
    | yes below ↦
        compare_bytes_trans (get_or vs j []) (get_or vs mid []) t
          (IsSorted-get_or vs j mid sorted below h) lt
    | no above ↦ let same : j ≡ mid = omega arith in rw same lt
  ]

  mid-Behind : (mid : ℕ) → compare_bytes (get_or vs mid []) t ≡ Ordering.gt → Behind vs t mid
  mid-Behind mid gt j k l = elim (dec_lt mid j) [
    | yes above ↦ compare_bytes_flipped t (get_or vs j []) (
        compare_bytes_trans t (get_or vs mid []) (get_or vs j [])
          (compare_bytes_flip (get_or vs mid []) t gt) (IsSorted-get_or vs mid j sorted above l))
    | no below ↦ let same : j ≡ mid = omega arith in rw same gt
  ]

  hit-Before :
      (mid : ℕ)
      → mid < length vs
      → compare_bytes (get_or vs mid []) t ≡ Ordering.eq
      → Before vs t mid
  hit-Before mid h eq j k =
      let lt = IsSorted-get_or vs j mid sorted k h in
      rw (compare_bytes_eq (get_or vs mid []) t eq) at lt

  search_fixed-place :
      (fuel lo hi : ℕ)
      → hi ≤ lo + fuel
      → lo ≤ hi
      → hi ≤ length vs
      → Before vs t lo
      → Behind vs t hi
      → search_fixed (image (suc stride) vs) (suc stride) t fuel lo hi ≡ ok (place t vs)
  unfolding search_fixed
  search_fixed-place zero lo hi f h k b a =
      let same : hi ≡ lo = omega arith in
      ap ok (sym (place_missing vs t lo (omega arith) b (rw same at a)))
  search_fixed-place (suc fuel) lo hi f h k b a = elim (dec_lt lo hi) [
    | yes some_left ↦
        let test : ltb lo hi ≡ true = ground arith in
        let mid = (lo + hi) / 2 in
        let inside : mid < length vs = omega arith in
        elim (Ordering-cases (compare_bytes (get_or vs mid []) t)) [
          | inl lt ↦
              rw (test, read_value mid inside)
                (rw (◌>>=◌, lt)
                  (search_fixed-place fuel (mid + 1) hi (omega arith) (omega arith) k
                    (mid-Before mid inside lt) a))
          | inr (inl eq) ↦
              rw (test, read_value mid inside)
                (rw (◌>>=◌, eq)
                  (ap ok (sym (place_present vs t mid inside (hit-Before mid inside eq) eq))))
          | inr (inr gt) ↦
              rw (test, read_value mid inside)
                (rw (◌>>=◌, gt)
                  (search_fixed-place fuel lo mid (omega arith) (omega arith) (omega arith) b
                    (mid-Behind mid gt)))
        ]
    | no none_left ↦
        let test : ltb lo hi ≡ false = ground arith in
        let same : hi ≡ lo = omega arith in
        rw test (ap ok (sym (place_missing vs t lo (omega arith) b (rw same at a))))
  ]

-- On the image of a sorted list of values of the right sizes, Search succeeds with the place of the target:
-- by the binary search over fixed-size entries and by the scan over the others.
pub search-place :
    (fixed : ℕ) (vs : List Bytes) (t : Bytes)
    → All (Sized fixed) vs
    → IsSorted vs
    → search (reader fixed vs) t ≡ ok (place t vs)
unfolding search reader image
search-place fixed [] t h k = unfold place in refl
search-place zero (v ∷ vs) t h k =
    let some_left : length (v ∷ vs) == 0 ≡ false = ground arith in
    let head = header (length (v ∷ vs)) (length (body 0 (v ∷ vs))) in
    let found = search_variable-place head (v ∷ vs) t 0 4 (length-header _ _) h in
    let from_zero : 0 + (place t (v ∷ vs)).0 ≡ (place t (v ∷ vs)).0 = omega arith in
    rw some_left (rw from_zero at found)
search-place (suc stride) (v ∷ vs) t h k =
    let some_left : length (v ∷ vs) == 0 ≡ false = ground arith in
    let fixed : suc stride == 0 ≡ false = ground arith in
    rw (some_left, fixed)
      (search_fixed-place stride (v ∷ vs) t h k (length (v ∷ vs)) 0 (length (v ∷ vs)) (omega arith)
        (omega arith) (omega arith) (λ j l. absurd (omega arith)) (λ j l m. absurd (omega arith)))
