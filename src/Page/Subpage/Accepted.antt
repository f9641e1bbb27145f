-- ===== src/Page/Subpage/Accepted.antt =====
-- Validate and AllValues on the image of a sorted set (internal/page/subpage.go).
use gmdb.Common.{
  ℕ, zero, suc, ◌+◌, ◌-◌, ◌*◌, ◌^◌, List, [], ◌∷◌, ◌++◌, true, false, Bytes, Option, none, some, ok,
  All, leb, ◌==◌, length, length-append, append_assoc, ◌≡◌, refl, arith,
}
use gmdb.Page.Subpage.{
  SubpageReader, size_bytes, in_order, validate_fixed, validate_variable, validate_entries,
  validate, new_subpage_reader, variable_values, fixed_values, all_values,
}
use gmdb.Page.Subpage.Edit.{encode_subpage}
use gmdb.Page.Subpage.Image.{
  Sized, entry, body, image, header, reader, length-header, length-image, uint16_of-entry,
  slice_of-entry, length-entry, slice_of-append, new_subpage_reader-image,
}
use gmdb.Page.Subpage.Sorted.{IsSorted, Above}
use gmdb.Page.Subpage.Splice.{length-body_fixed}
use gmdb.Page.Subpage.Refines.{IsSubpage}
use gmdb.Page.Subpage.RoundTrip.{Follows, behind-Follows, encode_subpage-image}

validate_variable-lem :
    (vs : List Bytes) (front : Bytes) (off end : ℕ) (prev : Option Bytes)
    → length front ≡ off
    → end ≡ off + length (body 0 vs)
    → All (Sized 0) vs
    → IsSorted vs
    → Follows prev vs
    → validate_variable (front ++ body 0 vs) end (length vs) off prev ≡ ok tt
unfolding validate_variable body
validate_variable-lem [] front off end prev e k h s f =
    let at_end : off == end ≡ true = ground arith in rw at_end
validate_variable-lem (v ∷ vs) front off end prev e k h s f =
    let rest = body 0 vs in
    let len = uint16_of-entry front rest v off e h.0 in
    let val = slice_of-entry front rest v off e in
    let next = length-entry front rest v off e in
    let both = length-append (entry 0 v) rest in
    let around = length-append front (entry 0 v) in
    let behind_entry : end ≡ off + 2 + length v + length rest = omega (arith, both, around, next) in
    let room : leb (off + 2) end ≡ true = ground arith in
    let room_all : leb (off + 2 + length v) end ≡ true = ground arith in
    let later =
      validate_variable-lem vs (front ++ entry 0 v) (off + 2 + length v) end (some v) next
        behind_entry h.1 s.1 s.0 in
    rw room (
      rw len
        (rw room_all (rw val (rw (behind-Follows prev v vs f) (rw (append_assoc front) at later)))))

validate_fixed-lem :
    (stride : ℕ) (vs : List Bytes) (front p : Bytes) (off : ℕ)
    → length front + suc stride ≡ off
    → length p ≡ suc stride
    → All (Sized (suc stride)) vs
    → IsSorted vs
    → Above p vs
    → validate_fixed (front ++ (p ++ body (suc stride) vs)) (suc stride) (length vs) off ≡ ok tt
unfolding validate_fixed body entry in_order
validate_fixed-lem stride [] front p off e k h s f = refl
validate_fixed-lem stride (v ∷ vs) front p off e k h s f =
    let rest = body (suc stride) vs in
    let before =
      slice_of-append front p (v ++ rest) (off - suc stride) off (omega arith) (omega arith) in
    let whole = length-append front p in
    let cur =
      slice_of-append (front ++ p) v rest off (off + suc stride) (omega arith)
        (omega (arith, h.0)) in
    let later =
      validate_fixed-lem stride vs (front ++ p) v (off + suc stride) (omega arith) h.0 h.1 s.1
        s.0 in
    rw before
      (rw (rw (append_assoc front) at cur) (rw (in_order, f.0) (rw (append_assoc front) at later)))

variable_values-lem :
    (vs : List Bytes) (front : Bytes) (off : ℕ)
    → length front ≡ off
    → All (Sized 0) vs
    → variable_values (front ++ body 0 vs) (length vs) off ≡ ok vs
unfolding variable_values body
variable_values-lem [] front off e h = refl
variable_values-lem (v ∷ vs) front off e h =
    let rest = body 0 vs in
    let len = uint16_of-entry front rest v off e h.0 in
    let val = slice_of-entry front rest v off e in
    let later =
      variable_values-lem vs (front ++ entry 0 v) (off + 2 + length v)
        (length-entry front rest v off e) h.1 in
    rw len (rw val (rw (rw (append_assoc front) at later) refl))

fixed_values-lem :
    (stride : ℕ) (vs : List Bytes) (front : Bytes) (off : ℕ)
    → length front ≡ off
    → All (Sized (suc stride)) vs
    → fixed_values (front ++ body (suc stride) vs) (suc stride) (length vs) off ≡ ok vs
unfolding fixed_values body entry
fixed_values-lem stride [] front off e h = refl
fixed_values-lem stride (v ∷ vs) front off e h =
    let rest = body (suc stride) vs in
    let cur = slice_of-append front v rest off (off + suc stride) e (omega (arith, h.0)) in
    let next : length (front ++ v) ≡ off + suc stride = omega (arith, length-append front v, h.0) in
    let later = fixed_values-lem stride vs (front ++ v) (off + suc stride) next h.1 in
    rw cur (rw (rw (append_assoc front) at later) refl)

all_values-reader :
    (fixed : ℕ) (vs : List Bytes) → All (Sized fixed) vs → all_values (reader fixed vs) ≡ ok vs
unfolding all_values reader image
all_values-reader zero vs h =
    variable_values-lem vs (header (length vs) (length (body 0 vs))) 4
      (length-header (length vs) (length (body 0 vs))) h
all_values-reader (suc stride) vs h =
    let fixed : suc stride == 0 ≡ false = ground arith in
    let d = length (body (suc stride) vs) in
    rw fixed (fixed_values-lem stride vs (header (length vs) d) 4 (length-header (length vs) d) h)

validate_entries-reader :
    (fixed : ℕ) (vs : List Bytes)
    → All (Sized fixed) vs
    → IsSorted vs
    → validate_entries (reader fixed vs) ≡ ok tt
unfolding validate_entries reader image body entry
validate_entries-reader fixed [] h s = unfold body in refl
validate_entries-reader zero (v ∷ vs) h s =
    let some_left : length (v ∷ vs) == 0 ≡ false = ground arith in
    let d = length (body 0 (v ∷ vs)) in
    rw some_left (
      validate_variable-lem (v ∷ vs) (header (length (v ∷ vs)) d) 4 (4 + d) none
        (length-header (length (v ∷ vs)) d) refl h s tt)
validate_entries-reader (suc stride) (v ∷ vs) h s =
    let some_left : length (v ∷ vs) == 0 ≡ false = ground arith in
    let fixed : suc stride == 0 ≡ false = ground arith in
    let d = length (body (suc stride) (v ∷ vs)) in
    let total : length (v ∷ vs) * suc stride == d ≡ true =
      ground (arith, length-body_fixed stride (v ∷ vs) h) in
    let less : suc (length vs) - 1 ≡ length vs = omega arith in
    let front = header (length (v ∷ vs)) d in
    let entries =
      validate_fixed-lem stride vs front v (4 + suc stride)
        (omega (arith, length-header (length (v ∷ vs)) d)) h.0 h.1 s.1 s.0 in
    rw (some_left, fixed) (rw total (rw less entries))

-- EncodeSubpage of a sorted set of values of the right sizes that the header's fields can count succeeds;
-- Validate accepts the subpage, and AllValues gives back the values in their order.
pub encode_subpage_round_trip :
    (fixed : ℕ) (vs : List Bytes)
    → IsSubpage fixed vs
    → (out : Bytes) × (r : SubpageReader) × (encode_subpage vs fixed ≡ ok out)
      × (new_subpage_reader out fixed ≡ ok r)
      × (validate r ≡ ok tt)
      × (all_values r ≡ ok vs)
unfolding validate size_bytes reader
encode_subpage_round_trip fixed vs s =
    let whole = length-image fixed vs in
    let room : leb (4 + length (body fixed vs)) (length (image fixed vs)) ≡ true = ground arith in
    let small : leb (length (body fixed vs)) (2 ^ 16 - 1) ≡ true = ground (arith, s.small) in
    (
      image fixed vs,
      reader fixed vs,
      encode_subpage-image fixed vs s,
      new_subpage_reader-image fixed vs s.few s.small,
      rw room (rw small (validate_entries-reader fixed vs s.sized s.sorted)),
      all_values-reader fixed vs s.sized,
    )
