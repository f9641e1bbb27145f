-- ===== src/Query/Minimum.antt =====
-- The loop of unionMerge (query/combiners.go) that looks for the least head.
use gmdb.Common.{
  ℕ, zero, suc, ◌+◌, ◌<◌, Bool, if◌then◌else◌, Option, none, some, List, [], ◌∷◌, Bytes, length,
  get_or, ◌≡◌, ◌⊎◌, inl, inr, refl, sym, ◌∙◌, ap, arith,
}
use mathlib.Core.Path.{subst}
use gmdb.Query.{lower, min_from, Branch, no_branch}
use gmdb.Query.Keys.{AtMost, AtMost-trans, is_less-cases}

-- The loop found a head with a key of at most `p`.
abbrev pub Finds : Option (ℕ × Bytes) → Bytes → Type 0
Finds o p = (k : ℕ) × (pk : Bytes) × (o ≡ some (k, pk)) × AtMost pk p

module _ {A : Type 0} where
  -- What is left of branch `j`.
  abbrev pub rows_of : List (Branch A) → ℕ → List (Bytes × A)
  rows_of hs j = (get_or hs j no_branch).rows

  lower-keeps :
      (rows : List (Bytes × A)) (i k : ℕ) (p : Bytes) → Finds (lower rows i (some (k, p))) p
  unfolding lower
  lower-keeps [] i k p = (k, p, refl, inr refl)
  lower-keeps (r ∷ rows) i k p = elim (is_less-cases r.0 p) [
    | inl (less, lt) ↦ (i, r.0, rw less refl, inl lt)
    | inr (not_less, le) ↦ (k, p, rw not_less refl, inr refl)
  ]

  lower-head :
      (r : Bytes × A) (rows : List (Bytes × A)) (i : ℕ) (m : Option (ℕ × Bytes))
      → Finds (lower (r ∷ rows) i m) r.0
  unfolding lower
  lower-head r rows i none = (i, r.0, refl, inr refl)
  lower-head r rows i (some (k, p)) = elim (is_less-cases r.0 p) [
    | inl (less, lt) ↦ (i, r.0, rw less refl, inr refl)
    | inr (not_less, le) ↦ (k, p, rw not_less refl, le)
  ]

  min_from-keeps :
      (hs : List (Branch A)) (i : ℕ) (m : Option (ℕ × Bytes)) (p : Bytes)
      → Finds m p
      → Finds (min_from hs i m) p
  unfolding min_from
  min_from-keeps [] i m p found = found
  min_from-keeps (b ∷ bs) i m p (k, pk, e, le) =
      let (k', pk', e', le') = lower-keeps b.rows i k pk in
      min_from-keeps bs (suc i) (lower b.rows i m) p (
        k',
        pk',
        ap (λ (o : Option (ℕ × Bytes)). lower b.rows i o) e ∙ e',
        AtMost-trans pk' pk p le' le,
      )

  -- No head is below the one that is found.
  pub min_from-covers :
      (hs : List (Branch A)) (i : ℕ) (m : Option (ℕ × Bytes)) (j : ℕ) (r : Bytes × A)
      (rest : List (Bytes × A))
      → rows_of hs j ≡ r ∷ rest
      → Finds (min_from hs i m) r.0
  unfolding min_from
  min_from-covers [] i m j r rest e = cc
  min_from-covers (b ∷ bs) i m zero r rest e = min_from-keeps bs (suc i) (lower b.rows i m) r.0 (
      subst (λ (rows : List (Bytes × A)). Finds (lower rows i m) r.0) (sym e)
        (lower-head r rest i m))
  min_from-covers (b ∷ bs) i m (suc j) r rest e =
      min_from-covers bs (suc i) (lower b.rows i m) j r rest e

  -- The head of branch `k` with key `pk`
  abbrev pub HeadOf : List (Branch A) → ℕ → Bytes → Type 0
  HeadOf hs k pk =
      (r : Bytes × A) × (rest : List (Bytes × A)) × (k < length hs)
      × (rows_of hs k ≡ r ∷ rest)
      × (r.0 ≡ pk)

  lower-from :
      (rows : List (Bytes × A)) (i k : ℕ) (m : Option (ℕ × Bytes)) (pk : Bytes)
      → lower rows i m ≡ some (k, pk)
      → (m ≡ some (k, pk))
        ⊎ ((k ≡ i) × (r : Bytes × A) × (rest : List (Bytes × A)) × (rows ≡ r ∷ rest) × (r.0 ≡ pk))
  unfolding lower
  lower-from [] i k m pk e = inl e
  lower-from (r ∷ rows) i k none pk e = inr (cc (e), r, rows, refl, cc (e))
  lower-from (r ∷ rows) i k (some (j, p)) pk e = elim (is_less-cases r.0 p) [
    | inl (less, lt) ↦
        let e' : some (i, r.0) ≡ some (k, pk) =
          sym (ap (λ (b : Bool). if b then some (i, r.0) else some (j, p)) less) ∙ e in
        inr (cc (e'), r, rows, refl, cc (e'))
    | inr (not_less, le) ↦
        inl (sym (ap (λ (b : Bool). if b then some (i, r.0) else some (j, p)) not_less) ∙ e)
  ]

  pub min_from-head :
      (hs : List (Branch A)) (i k : ℕ) (m : Option (ℕ × Bytes)) (pk : Bytes)
      → min_from hs i m ≡ some (k, pk)
      → (m ≡ some (k, pk)) ⊎ ((j : ℕ) × (k ≡ i + j) × HeadOf hs j pk)
  unfolding min_from
  min_from-head [] i k m pk e = inl e
  min_from-head (b ∷ bs) i k m pk e = elim (min_from-head bs (suc i) k (lower b.rows i m) pk e) [
    | inr (j, at, (r, rest, inside, rows, key)) ↦
        inr (suc j, omega arith, (r, rest, omega arith, rows, key))
    | inl from_here ↦ elim (lower-from b.rows i k m pk from_here) [
      | inl before ↦ inl before
      | inr (at, r, rest, rows, key) ↦ inr (0, omega arith, (r, rest, omega arith, rows, key))
    ]
  ]
