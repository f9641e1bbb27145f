-- ===== src/Page/Subpage/Sound.antt =====
-- What Validate accepts (internal/page/subpage.go).
use gmdb.Common.{
  ℕ, ◌+◌, ◌^◌, ◌≤◌, ◌<◌, List, [], ◌++◌, Bytes, AllBytes, none, ok, leb, ltb, ◌==◌, ◌>>◌, guard,
  length, length-append, append_assoc, ◌≡◌, inl, inr, Bool-cases, refl, sym, ap, arith, ◌∙◌,
}
use gmdb.Common.Buffer.{le_bytes, get_uint16}
use gmdb.Common.Buffer.Laws.{length-le_bytes}
use gmdb.Page.Subpage.Refines.{IsSubpage}
use gmdb.Page.Subpage.{
  corrupted, new_subpage_reader, max_subpage_data_size, SubpageReader, uint16_of, size_bytes,
  validate_variable, validate_entries, validate,
}
use gmdb.Page.Subpage.Image.{body, header, image, length-header}
use gmdb.Page.Subpage.Reads.{
  Seen, err-ne-ok, ok_injective, bind_ok, guard_ok, uint16_ok, empty_rest, validate_variable_sound,
}

-- A reader over a buffer of exactly its size.
record Opened (buf : Bytes) : Type 0 where
  count : ℕ
  data_size : ℕ
  rest : Bytes
  split : buf ≡ header count data_size ++ rest
  bytes : AllBytes rest
  count_read : get_uint16 buf 0 ≡ count
  size_read : get_uint16 buf 2 ≡ data_size
  count_fits : count < 2 ^ 16
  size_fits : data_size < 2 ^ 16

open_buffer : (buf : Bytes) → 4 ≤ length buf → AllBytes buf → Opened buf
unfolding header
open_buffer buf long b =
    let count = get_uint16 buf 0 in
    let size = get_uint16 buf 2 in
    let first : uint16_of buf 0 ≡ ok count = unfold uint16_of in ground arith in
    let second : uint16_of buf 2 ≡ ok size = unfold uint16_of in ground arith in
    let (more, split, bytes, fits) = uint16_ok [] buf 0 count refl b first in
    let again : uint16_of (le_bytes 2 count ++ more) 2 ≡ ok size =
      ap (λ (r : Bytes). uint16_of r 2) (sym split) ∙ second in
    let (rest, split_more, bytes_more, fits_more) =
      uint16_ok (le_bytes 2 count) more 2 size (length-le_bytes 2 count) bytes again in
    record {
      count = count;
      data_size = size;
      rest = rest;
      split =
          split
          ∙ ap (λ (r : Bytes). le_bytes 2 count ++ r) split_more
          ∙ sym (append_assoc (le_bytes 2 count) (le_bytes 2 size) rest);
      bytes = bytes_more;
      count_read = refl;
      size_read = refl;
      count_fits = fits;
      size_fits = fits_more;
    }

abbrev reader_of : Bytes → ℕ → ℕ → SubpageReader
reader_of buf c d = record { buf = buf; count = c; data_size = d; fixed_value_size = 0 }

entries_sound :
    (c d : ℕ) (buf rest : Bytes)
    → buf ≡ header c d ++ rest
    → length rest ≡ d
    → AllBytes rest
    → validate_entries (reader_of buf c d) ≡ ok tt
    → Seen c rest none
unfolding validate_entries
entries_sound c d buf rest split size bytes h = elim (Bool-cases (c == 0)) [
  | inl no_values ↦
      let no_data = guard_ok (d == 0) corrupted (rw no_values at h) in
      let nothing = empty_rest rest (ground arith) in
      unfold Seen body in ([], nothing, ground arith, tt, tt, tt)
  | inr some_values ↦
      validate_variable_sound c (header c d) rest 4 (4 + d) none (length-header c d)
        (omega (arith, size)) bytes
        (ap (λ (b : Bytes). validate_variable b (4 + d) c 4 none) (sym split)
          ∙ (rw some_values at h))
]

opened_reader :
    (buf : Bytes) (r : SubpageReader)
    → new_subpage_reader buf 0 ≡ ok r
    → (4 ≤ length buf) × (reader_of buf (get_uint16 buf 0) (get_uint16 buf 2) ≡ r)
unfolding new_subpage_reader
opened_reader buf r h = elim (Bool-cases (ltb (length buf) 4)) [
  | inl short ↦ absurd (err-ne-ok (rw short at h))
  | inr long ↦ (ground arith, ok_injective (rw long at h))
]

validate_ok : (r : SubpageReader) → validate r ≡ ok tt → validate_entries r ≡ ok tt
unfolding validate
validate_ok r h =
    let (_, g1, h1) =
      bind_ok (guard (leb (size_bytes r) (length r.buf)) corrupted)
        (λ _. guard (leb r.data_size max_subpage_data_size) corrupted >> validate_entries r) tt h in
    (bind_ok (guard (leb r.data_size max_subpage_data_size) corrupted) (λ _. validate_entries r) tt
      h1).2

-- A subpage of variable-size values that Validate accepts, in a buffer of exactly its size, is the image of
-- one list of values, which is sorted and holds none twice.
pub validate_sound :
    (buf : Bytes) (r : SubpageReader)
    → AllBytes buf
    → new_subpage_reader buf 0 ≡ ok r
    → length buf ≡ size_bytes r
    → validate r ≡ ok tt
    → (vs : List Bytes) × (buf ≡ image 0 vs) × IsSubpage 0 vs
unfolding size_bytes image Seen
validate_sound buf r b opened size accepted =
    let (long, same) = opened_reader buf r opened in
    let o = open_buffer buf long b in
    let data_size : r.data_size ≡ o.data_size =
      ap (λ (x : SubpageReader). x.data_size) (sym same) ∙ o.size_read in
    let as_read : r ≡ reader_of buf o.count o.data_size =
      sym same
      ∙ ap (λ (c : ℕ). reader_of buf c (get_uint16 buf 2)) o.count_read
      ∙ ap (λ (d : ℕ). reader_of buf o.count d) o.size_read in
    let whole = ap (λ (x : Bytes). length x) o.split in
    let width : length o.rest ≡ o.data_size = omega (
      arith,
      whole,
      size,
      data_size,
      length-append (header o.count o.data_size) o.rest,
      length-header o.count o.data_size,
    ) in
    let entries =
      ap (λ (x : SubpageReader). validate_entries x) (sym as_read) ∙ validate_ok r accepted in
    let (vs, body_is, count_is, sized, sorted, _) =
      entries_sound o.count o.data_size buf o.rest o.split width o.bytes entries in
    let bytes : length (body 0 vs) ≡ o.data_size =
      ap (λ (x : Bytes). length x) (sym body_is) ∙ width in
    (
      vs,
      o.split
          ∙ ap (λ (x : Bytes). header o.count o.data_size ++ x) body_is
          ∙ ap (λ (c : ℕ). header c o.data_size ++ body 0 vs) (sym count_is)
          ∙ ap (λ (d : ℕ). header (length vs) d ++ body 0 vs) (sym bytes),
      record {
        sized = sized;
        sorted = sorted;
        few = omega (arith, count_is, o.count_fits);
        small = omega (arith, bytes, o.size_fits);
      },
    )
