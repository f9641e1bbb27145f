-- ===== src/Page/Subpage/Refines.antt =====
-- A subpage is a sorted set of values (internal/page/subpage.go, Insert and Delete).
use gmdb.Common.{
  ℕ, zero, suc, ◌+◌, ◌-◌, ◌^◌, ◌≤◌, ◌<◌, List, [], ◌∷◌, ◌++◌, true, false, not, leb, Bytes, ok, err,
  All, Bool-cases, inl, inr, length, length-append, append-nil, ◌≡◌, refl, sym, ap, arith, ◌∙◌,
}
use gmdb.Page.Subpage.{corrupted, size_bytes, reader_buf, SubpageReader}
use gmdb.Page.Subpage.Edit.{insert, insert_at, subpage_entry_size, delete, delete_entry, value_fits}
use gmdb.Page.Subpage.Image.{
  Sized, entry, body, body-append, image, reader, length-image, slice_of-append,
}
use gmdb.Page.Subpage.Sorted.{
  IsSorted, place, put_sorted, drop_sorted, locate, missing, present, All-put_sorted,
  All-drop_sorted, put_sorted-IsSorted, drop_sorted-IsSorted,
}
use gmdb.Page.Subpage.Search.{search-place}
use gmdb.Page.Subpage.Splice.{insert_at-splice, subpage_entry_size-lem, length-body-with_value}
use gmdb.Page.Subpage.Remove.{delete_entry-splice}

-- The lists that subpages hold.
pub record IsSubpage (fixed : ℕ) (vs : List Bytes) : Type 0 where
  pub sized : All (Sized fixed) vs
  pub sorted : IsSorted vs
  pub few : length vs < 2 ^ 16
  pub small : length (body fixed vs) < 2 ^ 16

All-left : (P : Bytes → Type 0) (xs ys : List Bytes) → All P (xs ++ ys) → All P xs
All-left P [] ys h = tt
All-left P (x ∷ xs) ys h = (h.0, All-left P xs ys h.1)

value_fits-Sized :
    (fixed : ℕ) (vs : List Bytes) (t : Bytes)
    → Sized fixed t
    → value_fits (reader fixed vs) t ≡ true
unfolding value_fits reader
value_fits-Sized zero vs t h = refl
value_fits-Sized (suc stride) vs t h = ground arith

reader_buf-image :
    (fixed : ℕ) (vs : List Bytes) → reader_buf (reader fixed vs) ≡ ok (image fixed vs)
unfolding reader_buf reader size_bytes
reader_buf-image fixed vs =
    let found =
      slice_of-append [] (image fixed vs) [] 0 (4 + length (body fixed vs)) refl
        (omega (arith, length-image fixed vs)) in
    rw append-nil at found

-- Insert of a value of the right size into the subpage of a sorted set gives the subpage of the set with the
-- value, again sorted and of values of the right size, and says whether it was missing, where the header's
-- fields can count the result.
pub insert-put_sorted :
    (fixed : ℕ) (vs : List Bytes) (t : Bytes)
    → IsSubpage fixed vs
    → Sized fixed t
    → length (put_sorted t vs) < 2 ^ 16
    → length (body fixed (put_sorted t vs)) < 2 ^ 16
    → (insert (reader fixed vs) t ≡ ok (image fixed (put_sorted t vs), not (place t vs).1))
      × IsSubpage fixed (put_sorted t vs)
unfolding insert
insert-put_sorted fixed vs t s h few small =
    let fits = value_fits-Sized fixed vs t h in
    let found = search-place fixed vs t s.sized s.sorted in
    (
      elim (locate t vs) [
        | missing xs ys a b c d ↦
            let spliced =
              insert_at-splice fixed xs ys t h (All-left (Sized fixed) xs ys (rw a at s.sized))
                (rw c at few) (rw c at small) in
            rw (fits, found, b)
              (ap (λ (l : List Bytes). insert_at (reader fixed l) t (length xs)) a
                ∙ spliced
                ∙ ap (λ (l : List Bytes). ok (image fixed l, true)) (sym c))
        | present xs zs a b c d ↦ rw (fits, found, b) (rw (reader_buf-image fixed vs, c) refl)
      ],
      record {
        sized = All-put_sorted (Sized fixed) t vs h s.sized;
        sorted = put_sorted-IsSorted t vs s.sorted;
        few = few;
        small = small;
      },
    )

drop_sorted_shorter :
    (fixed : ℕ) (t : Bytes) (vs : List Bytes)
    → (length (drop_sorted t vs) ≤ length vs)
      × (length (body fixed (drop_sorted t vs)) ≤ length (body fixed vs))
unfolding body
drop_sorted_shorter fixed t vs = elim (locate t vs) [
  | missing xs ys a b c d ↦
      let same = ap (λ (l : List Bytes). length l) d in
      let bytes = ap (λ (l : List Bytes). length (body fixed l)) d in
      (omega (arith, same), omega (arith, bytes))
  | present xs zs a b c d ↦
      let was = ap (λ (l : List Bytes). length l) a in
      let now = ap (λ (l : List Bytes). length l) d in
      let bytes_were = ap (λ (l : List Bytes). length (body fixed l)) a in
      let bytes_are = ap (λ (l : List Bytes). length (body fixed l)) d in
      let split_were = ap (λ (b : Bytes). length b) (body-append fixed xs (t ∷ zs)) in
      let split_are = ap (λ (b : Bytes). length b) (body-append fixed xs zs) in
      (
        omega (arith, was, now, length-append xs (t ∷ zs), length-append xs zs),
        omega (
          arith,
          bytes_were,
          bytes_are,
          split_were,
          split_are,
          length-append (body fixed xs) (entry fixed t ++ body fixed zs),
          length-append (entry fixed t) (body fixed zs),
          length-append (body fixed xs) (body fixed zs),
        ),
      )
]

drop_sorted-IsSubpage :
    (fixed : ℕ) (t : Bytes) (vs : List Bytes)
    → IsSubpage fixed vs
    → IsSubpage fixed (drop_sorted t vs)
drop_sorted-IsSubpage fixed t vs s = record {
  sized = All-drop_sorted (Sized fixed) t vs s.sized;
  sorted = drop_sorted-IsSorted t vs s.sorted;
  few = omega (arith, s.few, drop_sorted_shorter fixed t vs);
  small = omega (arith, s.small, drop_sorted_shorter fixed t vs);
}

-- Delete of a value of the right size from the subpage of a sorted set gives the subpage of the set without
-- the value, again sorted and of values of the right size, and says whether it was there.
pub delete-drop_sorted :
    (fixed : ℕ) (vs : List Bytes) (t : Bytes)
    → IsSubpage fixed vs
    → Sized fixed t
    → (delete (reader fixed vs) t ≡ ok (image fixed (drop_sorted t vs), (place t vs).1))
      × IsSubpage fixed (drop_sorted t vs)
unfolding delete
delete-drop_sorted fixed vs t s h =
    let fits = value_fits-Sized fixed vs t h in
    let found = search-place fixed vs t s.sized s.sorted in
    (
      elim (locate t vs) [
        | missing xs ys a b c d ↦ rw (fits, found, b) (rw (reader_buf-image fixed vs, d) refl)
        | present xs zs a b c d ↦
            let spliced =
              delete_entry-splice fixed xs t zs h
                (All-left (Sized fixed) xs (t ∷ zs) (rw a at s.sized)) (rw a at s.few)
                (rw a at s.small) in
            rw (fits, found, b)
              (ap (λ (l : List Bytes). delete_entry (reader fixed l) t (length xs)) a
                ∙ spliced
                ∙ ap (λ (l : List Bytes). ok (image fixed l, true)) (sym d))
      ],
      drop_sorted-IsSubpage fixed t vs s,
    )

insert_at-full :
    (r : SubpageReader) (t : Bytes) (idx : ℕ)
    → leb (r.data_size + subpage_entry_size t r.fixed_value_size) (2 ^ 16 - 1) ≡ false
    → insert_at r t idx ≡ err corrupted
unfolding insert_at
insert_at-full r t idx full = elim (Bool-cases (leb (r.count + 1) (2 ^ 16 - 1))) [
  | inl counted ↦ rw (counted, full)
  | inr too_many ↦ rw too_many
]

-- Insert of a value of the right size that would make the entries of a sorted set longer than the header's
-- 16-bit field can say fails with the corruption error, and writes nothing.
pub insert_too_large :
    (fixed : ℕ) (vs : List Bytes) (t : Bytes)
    → IsSubpage fixed vs
    → Sized fixed t
    → 2 ^ 16 ≤ length (body fixed (put_sorted t vs))
    → insert (reader fixed vs) t ≡ err corrupted
unfolding insert reader
insert_too_large fixed vs t s h large =
    let fits = value_fits-Sized fixed vs t h in
    let found = search-place fixed vs t s.sized s.sorted in
    let size = subpage_entry_size-lem fixed t h in
    elim (locate t vs) [
      | missing xs ys a b c d ↦
          let bytes = ap (λ (l : List Bytes). length (body fixed l)) c in
          let were = ap (λ (l : List Bytes). length (body fixed l)) a in
          let sum = length-body-with_value fixed xs ys t h in
          let full : leb (length (body fixed vs) + length (entry fixed t)) (2 ^ 16 - 1) ≡ false =
            ground (arith, bytes, were, sum, large) in
          rw (fits, found, b) (insert_at-full (reader fixed vs) t (length xs) (rw size full))
      | present xs zs a b c d ↦
          let bytes = ap (λ (l : List Bytes). length (body fixed l)) c in
          absurd (omega (arith, bytes, large, s.small))
    ]
