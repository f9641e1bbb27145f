-- ===== src/Page/Subpage/RoundTrip.antt =====
-- EncodeSubpage, Validate and AllValues (internal/page/subpage.go).
use gmdb.Common.{
  ℕ, zero, suc, ◌+◌, ◌-◌, ◌%◌, ◌^◌, ◌≤◌, List, [], ◌∷◌, ◌++◌, true, ◌||◌, Bytes, Option, none, some,
  ok, All, leb, ◌==◌, length, replicate, length-append, append_assoc, append-nil, ◌≡◌, refl, sym,
  ap, arith, ◌∙◌,
}
use gmdb.Common.Buffer.{put_uint16, le_bytes}
use gmdb.Common.Buffer.Laws.{put_over_zeros}
use gmdb.Page.Subpage.{in_order, behind}
use gmdb.Page.Subpage.Edit.{measure, write_entries, encode_subpage}
use gmdb.Page.Subpage.Image.{Sized, entry, body, image, header, length-header}
use gmdb.Page.Subpage.Sorted.{IsSorted, Above}
use gmdb.Page.Subpage.Splice.{subpage_entry_size-lem, entry_written, header_set}
use gmdb.Page.Subpage.Refines.{IsSubpage}

-- A list that may follow what was read before it.
abbrev pub Follows : Option Bytes → List Bytes → Type 0
Follows none vs = Unit
Follows (some p) vs = Above p vs

pub behind-Follows :
    (prev : Option Bytes) (v : Bytes) (vs : List Bytes)
    → Follows prev (v ∷ vs)
    → behind prev v ≡ ok tt
unfolding behind in_order
behind-Follows none v vs h = refl
behind-Follows (some p) v vs h = rw (behind, in_order, h.0)

fixed_or-Sized : (fixed : ℕ) (v : Bytes) → Sized fixed v → (fixed == 0 || length v == fixed) ≡ true
fixed_or-Sized zero v h = refl
fixed_or-Sized (suc stride) v h = ground arith

measure-lem :
    (fixed : ℕ) (prev : Option Bytes) (vs : List Bytes) (size : ℕ)
    → All (Sized fixed) vs
    → IsSorted vs
    → Follows prev vs
    → measure fixed prev vs size ≡ ok (size + length (body fixed vs))
unfolding measure body
measure-lem fixed prev [] size h s f = let same : size + 0 ≡ size = omega arith in rw same
measure-lem fixed prev (v ∷ vs) size h s f =
    let test = fixed_or-Sized fixed v h.0 in
    let order = behind-Follows prev v vs f in
    let width = subpage_entry_size-lem fixed v h.0 in
    let later = measure-lem fixed (some v) vs (size + length (entry fixed v)) h.1 s.1 s.0 in
    let sum : size + length (entry fixed v) + length (body fixed vs)
        ≡ size + length (entry fixed v ++ body fixed vs) =
      omega (arith, length-append (entry fixed v) (body fixed vs)) in
    rw (test, order, width) (later ∙ ap ok sum)

write_entries-lem :
    (fixed : ℕ) (vs : List Bytes) (front : Bytes) (off n : ℕ)
    → All (Sized fixed) vs
    → length front ≡ off
    → length (body fixed vs) ≤ n
    → write_entries fixed vs off (front ++ replicate n 0)
      ≡ front ++ (body fixed vs ++ replicate (n - length (body fixed vs)) 0)
unfolding write_entries body
write_entries-lem fixed [] front off n h e k = let all : n - 0 ≡ n = omega arith in rw all
write_entries-lem fixed (v ∷ vs) front off n h e k =
    let mid = entry fixed v in
    let both = length-append mid (body fixed vs) in
    let width = subpage_entry_size-lem fixed v h.0 in
    let next : length (front ++ mid) ≡ off + length mid = omega (arith, length-append front mid) in
    let later =
      write_entries-lem fixed vs (front ++ mid) (off + length mid) (n - length mid) h.1 next
        (omega (arith, both)) in
    let left : n - length mid - length (body fixed vs) ≡ n - length (mid ++ body fixed vs) =
      omega (arith, both) in
    rw
      (
        width,
        entry_written fixed off v front n h.0 e (omega (arith, both)),
        put_over_zeros front mid off n e,
      )
      (later
        ∙ rw (left, append_assoc front mid)
            (ap (λ (b : Bytes). front ++ b) (sym (append_assoc mid (body fixed vs) _))))

written :
    (fixed : ℕ) (vs : List Bytes)
    → All (Sized fixed) vs
    → write_entries fixed vs 4 (
        put_uint16
          (put_uint16 (replicate (4 + length (body fixed vs)) 0) 0 (length vs))
          2
          (length (body fixed vs)))
      ≡ image fixed vs
unfolding image header le_bytes
written fixed vs h =
    let c = length vs in
    let d = length (body fixed vs) in
    let four : 4 + d ≡ suc (suc (suc (suc d))) = omega arith in
    let nothing : d - d ≡ 0 = omega arith in
    let done = write_entries-lem fixed vs (header c d) 4 d h (length-header c d) (omega arith) in
    ap (λ (b : Bytes). write_entries fixed vs 4 b) (rw four (header_set 0 0 c d (replicate d 0)))
    ∙ done
    ∙ rw nothing (ap (λ (b : Bytes). header c d ++ b) (append-nil (body fixed vs)))

pub encode_subpage-image :
    (fixed : ℕ) (vs : List Bytes)
    → IsSubpage fixed vs
    → encode_subpage vs fixed ≡ ok (image fixed vs)
unfolding encode_subpage image
encode_subpage-image fixed vs s =
    let c = length vs in
    let d = length (body fixed vs) in
    let measured = measure-lem fixed none vs 0 s.sized s.sorted tt in
    let same : 0 + d ≡ d = omega arith in
    let data_fits : leb d (2 ^ 16 - 1) ≡ true = ground (arith, s.small) in
    let count_fits : leb c (2 ^ 16 - 1) ≡ true = ground (arith, s.few) in
    let count : c % 2 ^ 16 ≡ c = omega (arith, s.few) in
    let bytes : d % 2 ^ 16 ≡ d = omega (arith, s.small) in
    rw (measured, same)
      (rw (data_fits, count_fits) (ap ok (rw (count, bytes) (written fixed vs s.sized))))
