-- ===== src/Page/Subpage/Remove.antt =====
-- Delete takes one entry out (internal/page/subpage.go).
use gmdb.Common.{
  ℕ, ◌+◌, ◌-◌, ◌%◌, ◌^◌, ◌<◌, List, [], ◌∷◌, ◌++◌, true, Bytes, ok, All, leb, length, replicate,
  length-append, append_assoc, append-nil, ◌≡◌, refl, ap, arith, ◌∙◌,
}
use gmdb.Common.Buffer.{put, put_uint16}
use gmdb.Common.Buffer.Laws.{put_over_zeros}
use gmdb.Page.Subpage.{slice_of, size_bytes}
use gmdb.Page.Subpage.Edit.{delete_entry}
use gmdb.Page.Subpage.Image.{
  Sized, entry, body, image, header, reader, body-append, slice_of-append,
}
use gmdb.Page.Subpage.Splice.{
  subpage_entry_size-lem, entry_offset-lem, header_set, head_of, length-head_of, image-split,
  front_slice, data_of-sum, count_of, data_of, length-with_value, length-body-with_value,
}

module _ (fixed : ℕ) (xs : List Bytes) (t : Bytes) (zs : List Bytes) (h : Sized fixed t) where
  abbrev head : Bytes
  head = head_of fixed xs (t ∷ zs)

  abbrev off : ℕ
  off = 4 + length (body fixed xs)

  abbrev size : ℕ
  size = length (entry fixed t)

  whole_size : data_of fixed xs (t ∷ zs) ≡ data_of fixed xs zs + size
  whole_size = length-body-with_value fixed xs zs t h

  rest_size : data_of fixed xs zs ≡ length (body fixed xs) + length (body fixed zs)
  rest_size = data_of-sum fixed xs zs

  removed_slice :
      slice_of (image fixed (xs ++ t ∷ zs)) (off + size) (4 + data_of fixed xs (t ∷ zs))
      ≡ ok (body fixed zs)
  unfolding body
  removed_slice =
      let found =
        slice_of-append (head ++ entry fixed t) (body fixed zs) [] (off + size)
          (4 + data_of fixed xs (t ∷ zs))
          (omega (arith, length-append head (entry fixed t), length-head_of fixed xs (t ∷ zs)))
          (omega (arith, whole_size, rest_size)) in
      rw (image-split fixed xs (t ∷ zs), ← append_assoc head) (rw append-nil at found)

  buffer_removed :
      put off (body fixed zs) (put 0 head (replicate (4 + data_of fixed xs (t ∷ zs) - size) 0))
      ≡ head ++ body fixed zs
  buffer_removed =
      let n = 4 + data_of fixed xs (t ∷ zs) - size in
      let len = length-head_of fixed xs (t ∷ zs) in
      let nothing : n - length head - length (body fixed zs) ≡ 0 =
        omega (arith, whole_size, rest_size, len) in
      ap (λ (b : Bytes). put off (body fixed zs) b) (put_over_zeros [] head 0 n refl)
      ∙ put_over_zeros head (body fixed zs) off (n - length head) len
      ∙ rw nothing (append-nil (head ++ body fixed zs))

  header_removed :
      length (xs ++ t ∷ zs) < 2 ^ 16
      → data_of fixed xs (t ∷ zs) < 2 ^ 16
      → put_uint16
          (put_uint16 (head ++ body fixed zs) 0 ((count_of fixed xs (t ∷ zs) - 1) % 2 ^ 16))
          2
          ((data_of fixed xs (t ∷ zs) - size) % 2 ^ 16)
        ≡ image fixed (xs ++ zs)
  unfolding image head_of
  header_removed few small =
      let c = count_of fixed xs (t ∷ zs) in
      let d = data_of fixed xs (t ∷ zs) in
      let count : (c - 1) % 2 ^ 16 ≡ length (xs ++ zs) =
        omega (arith, length-with_value fixed xs zs t h) in
      let bytes : (d - size) % 2 ^ 16 ≡ length (body fixed (xs ++ zs)) =
        omega (arith, whole_size) in
      ap (λ (b : Bytes). put_uint16 (put_uint16 b 0 ((c - 1) % 2 ^ 16)) 2 ((d - size) % 2 ^ 16))
        (append_assoc (header c d) (body fixed xs) (body fixed zs))
      ∙ header_set c d _ _ (body fixed xs ++ body fixed zs)
      ∙ rw (count, bytes, ← body-append fixed xs zs)

  -- Delete behind its search, on an index that splits the values.
  pub delete_entry-splice :
      All (Sized fixed) xs
      → length (xs ++ t ∷ zs) < 2 ^ 16
      → length (body fixed (xs ++ t ∷ zs)) < 2 ^ 16
      → delete_entry (reader fixed (xs ++ t ∷ zs)) t (length xs) ≡ ok (image fixed (xs ++ zs), true)
  unfolding delete_entry reader size_bytes
  delete_entry-splice sized few small =
      let width = subpage_entry_size-lem fixed t h in
      let room : leb size (4 + data_of fixed xs (t ∷ zs)) ≡ true = ground (arith, whole_size) in
      rw (width, entry_offset-lem fixed xs (t ∷ zs) sized)
        (rw room (
          rw (front_slice fixed xs (t ∷ zs))
            (rw removed_slice (rw buffer_removed (rw (header_removed few small) refl)))))
