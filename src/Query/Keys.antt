-- ===== src/Query/Keys.antt =====
-- The tests on primary keys of query/combiners.go.
use gmdb.Common.{
  true, false, Option, none, some, List, ◌∷◌, Bytes, ◌≡◌, ◌≢◌, ◌⊎◌, inl, inr, refl, sym, ◌∙◌, ap,
}
use Prim.Native.Nat.{Ordering}
use gmdb.Common.Order.{compare_bytes}
use gmdb.Common.ByteOrder.{
  compare_bytes_eq, compare_bytes_trans, compare_bytes_flip, compare_bytes_self, Ordering-cases,
}
use gmdb.Query.{is_less, same_key, in_set, is_last}

abbrev pub Less : Bytes → Bytes → Type 0
Less a b = compare_bytes a b ≡ Ordering.lt

-- Less, or the same.
abbrev pub AtMost : Bytes → Bytes → Type 0
AtMost a b = (Less a b) ⊎ (a ≡ b)

pub AtMost-Less : (a b c : Bytes) → AtMost a b → Less b c → Less a c
AtMost-Less a b c (inl lt) k = compare_bytes_trans a b c lt k
AtMost-Less a b c (inr e) k = rw e k

pub Less-AtMost : (a b c : Bytes) → Less a b → AtMost b c → Less a c
Less-AtMost a b c h (inl lt) = compare_bytes_trans a b c h lt
Less-AtMost a b c h (inr e) = rw (sym e) h

pub AtMost-trans : (a b c : Bytes) → AtMost a b → AtMost b c → AtMost a c
AtMost-trans a b c (inl lt) k = inl (Less-AtMost a b c lt k)
AtMost-trans a b c (inr e) k = rw e k

pub Less-irrefl : (a : Bytes) → ¬ (Less a a)
Less-irrefl a h = cc (h, compare_bytes_self a)

pub is_less-cases :
    (a b : Bytes) → ((is_less a b ≡ true) × Less a b) ⊎ ((is_less a b ≡ false) × AtMost b a)
unfolding is_less
is_less-cases a b = elim (Ordering-cases (compare_bytes a b)) [
  | inl lt ↦ inl (rw (is_less, lt) refl, lt)
  | inr (inl eq) ↦ inr (rw (is_less, eq) refl, inr (sym (compare_bytes_eq a b eq)))
  | inr (inr gt) ↦ inr (rw (is_less, gt) refl, inl (compare_bytes_flip a b gt))
]

pub same_key-cases :
    (a b : Bytes) → ((same_key a b ≡ true) × (a ≡ b)) ⊎ ((same_key a b ≡ false) × (a ≢ b))
unfolding same_key
same_key-cases a b = elim (Ordering-cases (compare_bytes a b)) [
  | inl lt ↦ inr (rw (same_key, lt) refl, λ e. cc (lt, e, compare_bytes_self b))
  | inr (inl eq) ↦ inl (rw (same_key, eq) refl, compare_bytes_eq a b eq)
  | inr (inr gt) ↦ inr (rw (same_key, gt) refl, λ e. cc (gt, e, compare_bytes_self b))
]

pub some_bytes : {a b : Bytes} → some a ≡ some b → a ≡ b
some_bytes e = cc

pub is_last-cases :
    (last : Option Bytes) (pk : Bytes)
    → ((is_last last pk ≡ true) × (last ≡ some pk))
      ⊎ ((is_last last pk ≡ false) × ((l : Bytes) → last ≡ some l → l ≢ pk))
unfolding is_last
is_last-cases none pk = inr (refl, λ l e. cc)
is_last-cases (some last) pk = elim (same_key-cases last pk) [
  | inl (same, e) ↦ inl (same, ap (λ (x : Bytes). some x) e)
  | inr (other, ne) ↦ inr (other, λ l e h. ne (some_bytes e ∙ h))
]

pub in_set-cons :
    (pk k : Bytes) (ks : List Bytes)
    → ((in_set pk (k ∷ ks) ≡ true) × (k ≡ pk)) ⊎ ((in_set pk (k ∷ ks) ≡ in_set pk ks) × (k ≢ pk))
unfolding in_set
in_set-cons pk k ks = elim (same_key-cases k pk) [
  | inl (same, e) ↦ inl (rw same refl, e)
  | inr (other, ne) ↦ inr (rw other refl, ne)
]
