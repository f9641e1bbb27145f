-- ===== src/Indexing/Entry/Uvarint.antt =====
-- encoding/binary's PutUvarint and Uvarint, which internal/indexing calls: seven bits a byte, low
-- group first, ten bytes at most.
use gmdb.Common.{
  ℕ, zero, suc, ◌+◌, ◌-◌, ◌*◌, ◌/◌, ◌%◌, ◌^◌, ◌≤◌, ◌<◌, [], ◌∷◌, ◌++◌, Bytes, Option, none, some,
  ltb, if◌then◌else◌, length, ◌≡◌, ap, arith, ◌⊎◌, inl, inr, Bool-cases, Option-cases,
}

-- `k` is the number of bytes that may still follow.
pub put_groups : ℕ → ℕ → Bytes
put_groups zero x = x ∷ []
put_groups (suc k) x =
    let rest = put_groups k (x / 128) in if ltb x 128 then x ∷ [] else (x % 128 + 128) ∷ rest

-- `PutUvarint`: the bytes written.
pub put_uvarint : ℕ → Bytes
put_uvarint x = put_groups 9 x

-- The value behind a group with the top bit set.
abbrev add_group : ℕ → Option (ℕ × Bytes) → Option (ℕ × Bytes)
add_group b none = none
add_group b (some (v, rest)) = some (b - 128 + 128 * v, rest)

pub get_groups : ℕ → Bytes → Option (ℕ × Bytes)
get_groups k [] = none
get_groups zero (b ∷ bs) = if ltb 1 b then none else some (b, bs)
get_groups (suc k) (b ∷ bs) =
    let more = add_group b (get_groups k bs) in if ltb b 128 then some (b, bs) else more

-- `Uvarint`: the value and the bytes behind it; `none` stands for n <= 0.
pub uvarint : Bytes → Option (ℕ × Bytes)
uvarint bs = get_groups 9 bs

get_groups-put_groups :
    (k x : ℕ) (rest : Bytes)
    → x < 2 * 128 ^ k
    → get_groups k (put_groups k x ++ rest) ≡ some (x, rest)
unfolding get_groups put_groups
get_groups-put_groups zero x rest h = ground arith
get_groups-put_groups (suc k) x rest h =
    ground (arith, get_groups-put_groups k (x / 128) rest (omega arith))

pub uvarint-put_uvarint :
    (x : ℕ) (rest : Bytes) → x < 2 ^ 64 → uvarint (put_uvarint x ++ rest) ≡ some (x, rest)
unfolding uvarint put_uvarint
uvarint-put_uvarint x rest h = get_groups-put_groups 9 x rest h

-- A list without its last part, which `get_groups` leaves.
abbrev Prefix : ℕ → Bytes → Bytes → Type 0
Prefix k bs rest = (front : Bytes) × (bs ≡ front ++ rest) × (1 ≤ length front) × (length front ≤ k)

prefix_step : (k b : ℕ) (bs rest : Bytes) → Prefix k bs rest → Prefix (suc k) (b ∷ bs) rest
prefix_step k b bs rest (front, e, lo, hi) =
    (b ∷ front, ap (λ (t : Bytes). b ∷ t) e, omega arith, omega arith)

get_groups_more :
    (k b : ℕ) (bs : Bytes) (v : ℕ) (rest : Bytes)
    → get_groups (suc k) (b ∷ bs) ≡ some (v, rest)
    → (bs ≡ rest) ⊎ ((w : ℕ) × (get_groups k bs ≡ some (w, rest)))
unfolding get_groups
get_groups_more k b bs v rest h = elim (Option-cases (get_groups k bs)) [
  | inl e ↦ inl (ground (arith, e))
  | inr ((w, r), e) ↦ elim (Bool-cases (ltb b 128)) [
    | inl small ↦ inl (ground (arith, e))
    | inr big ↦ inr (w, ground (arith, e))
  ]
]

-- A prefix that is read takes one byte at least and ten at most, and the rest is what stands behind.
get_groups_takes :
    (k : ℕ) (bs : Bytes) (v : ℕ) (rest : Bytes)
    → get_groups k bs ≡ some (v, rest)
    → Prefix (suc k) bs rest
get_groups_takes k [] v rest h = unfold get_groups in absurd (ground arith)
get_groups_takes zero (b ∷ bs) v rest h =
    (b ∷ [], unfold get_groups in ground arith, omega arith, omega arith)
get_groups_takes (suc k) (b ∷ bs) v rest h = elim (get_groups_more k b bs v rest h) [
  | inl e ↦ (b ∷ [], ap (λ (t : Bytes). b ∷ t) e, omega arith, omega arith)
  | inr (w, e) ↦ prefix_step (suc k) b bs rest (get_groups_takes k bs w rest e)
]

pub uvarint_takes :
    (bs : Bytes) (v : ℕ) (rest : Bytes)
    → uvarint bs ≡ some (v, rest)
    → (front : Bytes) × (bs ≡ front ++ rest) × (1 ≤ length front) × (length front ≤ 10)
unfolding uvarint
uvarint_takes bs v rest h = get_groups_takes 9 bs v rest h
