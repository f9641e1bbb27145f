-- ===== src/Query/Firsts.antt =====
-- The first row of each key, and the bytes of the keys against the budget (query/combiners.go and the
-- meter of query/ordering.go).
use gmdb.Common.{
  ℕ, ◌+◌, ◌≤◌, Bool, true, false, if◌then◌else◌, List, [], ◌∷◌, Bytes, length, ◌≡◌, ◌⊎◌, inl, inr,
  refl, ap, arith,
}
use gmdb.Query.{Meter, charge, in_set, leaf_drive}

-- The budget has room for `n` more bytes.
abbrev pub Roomy : Meter → ℕ → Type 0
Roomy m n = (m.limit ≡ 0) ⊎ (m.used + n ≤ m.limit)

pub charge_fits :
    (m : Meter) (k n : ℕ) → Roomy m (k + n) → ((charge m k).0 ≡ true) × Roomy (charge m k).1 n
unfolding charge
charge_fits m k n (inl free) = ground arith
charge_fits m k n (inr room) = ground arith

pub Roomy-le : (m : Meter) (k n : ℕ) → Roomy m (k + n) → Roomy m n
Roomy-le m k n (inl free) = inl free
Roomy-le m k n (inr room) = inr (omega arith)

module _ {A : Type 0} where
  -- The rows with a key that is not in the set, the first of each key.
  unfoldable pub first_of : List Bytes → List (Bytes × A) → List (Bytes × A)
  first_of seen [] = []
  first_of seen (r ∷ rows) = elim (in_set r.0 seen) [
    | true ↦ first_of seen rows
    | false ↦ r ∷ first_of (r.0 ∷ seen) rows
  ]

  -- The bytes of the keys.
  unfoldable pub key_bytes : List (Bytes × A) → ℕ
  key_bytes [] = 0
  key_bytes (r ∷ rows) = length r.0 + key_bytes rows

  pub first_of-seen :
      (seen : List Bytes) (r : Bytes × A) (rows : List (Bytes × A))
      → in_set r.0 seen ≡ true
      → first_of seen (r ∷ rows) ≡ first_of seen rows
  unfolding first_of
  first_of-seen seen r rows dup = rw (first_of, dup) refl

  pub first_of-new :
      (seen : List Bytes) (r : Bytes × A) (rows : List (Bytes × A))
      → in_set r.0 seen ≡ false
      → first_of seen (r ∷ rows) ≡ r ∷ first_of (r.0 ∷ seen) rows
  unfolding first_of
  first_of-new seen r rows new = rw (first_of, new) refl

module _ {A S : Type 0} (cb : S → Bytes × A → Bool × S) where
  pub leaf_drive-on :
      (r : Bytes × A) (rows : List (Bytes × A)) (s t : S)
      → cb s r ≡ (true, t)
      → leaf_drive cb (r ∷ rows) s ≡ leaf_drive cb rows t
  unfolding leaf_drive
  leaf_drive-on r rows s t e =
      ap (λ (c : Bool × S). let rest = leaf_drive cb rows c.1 in if c.0 then rest else (false, c.1))
        e

  pub leaf_drive-off :
      (r : Bytes × A) (rows : List (Bytes × A)) (s t : S)
      → cb s r ≡ (false, t)
      → leaf_drive cb (r ∷ rows) s ≡ (false, t)
  unfolding leaf_drive
  leaf_drive-off r rows s t e =
      ap (λ (c : Bool × S). let rest = leaf_drive cb rows c.1 in if c.0 then rest else (false, c.1))
        e
