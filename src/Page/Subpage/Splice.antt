-- ===== src/Page/Subpage/Splice.antt =====
-- Insert and Delete splice one entry (internal/page/subpage.go).
use gmdb.Common.{
  ℕ, zero, suc, ◌+◌, ◌-◌, ◌*◌, ◌%◌, ◌^◌, ◌≤◌, ◌<◌, List, [], ◌∷◌, ◌++◌, true, false, Bytes, ok, All,
  leb, ◌==◌, length, replicate, length-append, append_assoc, append-nil, ◌≡◌, refl, sym, ap, arith,
  ◌∙◌,
}
use gmdb.Common.Buffer.{le_bytes, put, put_uint16}
use gmdb.Common.Buffer.Laws.{put_over_zeros, length-le_bytes}
use gmdb.Page.Subpage.{slice_of, skip_entries, entry_offset, size_bytes}
use gmdb.Page.Subpage.Edit.{subpage_entry_size, write_subpage_entry, insert_at}
use gmdb.Page.Subpage.Image.{
  Sized, entry, body, image, header, reader, body-append, length-header, slice_of-append,
  uint16_of-entry, length-entry,
}

pub subpage_entry_size-lem :
    (fixed : ℕ) (v : Bytes) → Sized fixed v → subpage_entry_size v fixed ≡ length (entry fixed v)
unfolding subpage_entry_size entry
subpage_entry_size-lem zero v h =
    omega (arith, length-append (le_bytes 2 (length v)) v, length-le_bytes 2 (length v))
subpage_entry_size-lem (suc stride) v h = ground arith

-- The walk over the first entries ends behind them.
skip_entries-lem :
    (front : Bytes) (xs : List Bytes) (rest : Bytes) (off : ℕ)
    → length front ≡ off
    → All (Sized 0) xs
    → skip_entries (front ++ (body 0 xs ++ rest)) (length xs) off ≡ ok (off + length (body 0 xs))
unfolding skip_entries body
skip_entries-lem front [] rest off e h = let same : off + 0 ≡ off = omega arith in rw same
skip_entries-lem front (x ∷ xs) rest off e h =
    let more = body 0 xs ++ rest in
    let len = uint16_of-entry front more x off e h.0 in
    let later =
      skip_entries-lem (front ++ entry 0 x) xs rest (off + 2 + length x)
        (length-entry front more x off e) h.1 in
    let sum : off + 2 + length x + length (body 0 xs) ≡ off + length (entry 0 x ++ body 0 xs) =
      omega (
        arith,
        length-append (entry 0 x) (body 0 xs),
        length-append front (entry 0 x),
        length-entry front more x off e,
      ) in
    ap (λ (b : Bytes). skip_entries (front ++ b) (suc (length xs)) off)
      (append_assoc (entry 0 x) (body 0 xs) rest)
    ∙ rw len (rw (append_assoc front) at later ∙ ap ok sum)

pub length-body_fixed :
    (stride : ℕ) (xs : List Bytes)
    → All (Sized (suc stride)) xs
    → length (body (suc stride) xs) ≡ length xs * suc stride
unfolding body entry
length-body_fixed stride [] h = omega arith
length-body_fixed stride (x ∷ xs) h =
    omega (arith, length-append x (body (suc stride) xs), length-body_fixed stride xs h.1, h.0)

pub entry_offset-lem :
    (fixed : ℕ) (xs ys : List Bytes)
    → All (Sized fixed) xs
    → entry_offset (reader fixed (xs ++ ys)) (length xs) ≡ ok (4 + length (body fixed xs))
unfolding entry_offset reader image
entry_offset-lem zero xs ys h =
    let head = header (length (xs ++ ys)) (length (body 0 xs ++ body 0 ys)) in
    rw (body-append 0 xs ys) (skip_entries-lem head xs (body 0 ys) 4 (length-header _ _) h)
entry_offset-lem (suc stride) xs ys h =
    let fixed : suc stride == 0 ≡ false = ground arith in rw (fixed, length-body_fixed stride xs h)

-- Two writes over zeros, one behind the other, up to the end.
spliced :
    (front mid back : Bytes) (off n : ℕ)
    → length front ≡ off
    → n ≡ length mid + length back
    → put (off + length mid) back (put off mid (front ++ replicate n 0)) ≡ front ++ (mid ++ back)
spliced front mid back off n e k =
    let whole : length (front ++ mid) ≡ off + length mid = omega (arith, length-append front mid) in
    let nothing : n - length mid - length back ≡ 0 = omega arith in
    ap (λ (b : Bytes). put (off + length mid) back b) (put_over_zeros front mid off n e)
    ∙ put_over_zeros (front ++ mid) back (off + length mid) (n - length mid) whole
    ∙ rw nothing (append-nil ((front ++ mid) ++ back) ∙ append_assoc front mid back)

-- The header's fields are rewritten last.
pub header_set :
    (count data_size new_count new_size : ℕ) (rest : Bytes)
    → put_uint16 (put_uint16 (header count data_size ++ rest) 0 new_count) 2 new_size
      ≡ header new_count new_size ++ rest
unfolding put_uint16 put header le_bytes
header_set count data_size new_count new_size rest = refl

-- The writes of Insert, which put the entry in the middle, and of Delete.
pub entry_written :
    (fixed : ℕ) (off : ℕ) (v front : Bytes) (n : ℕ)
    → Sized fixed v
    → length front ≡ off
    → length (entry fixed v) ≤ n
    → write_subpage_entry (front ++ replicate n 0) off v fixed
      ≡ put off (entry fixed v) (front ++ replicate n 0)
unfolding write_subpage_entry entry put_uint16
entry_written zero off v front n h e k =
    let prefix = le_bytes 2 (length v) in
    let fits : length v % 2 ^ 16 ≡ length v = omega arith in
    let two : length prefix ≡ 2 = length-le_bytes 2 (length v) in
    let behind : length (front ++ prefix) ≡ off + 2 = omega (arith, length-append front prefix) in
    let left : n - length prefix - length v ≡ n - length (prefix ++ v) =
      omega (arith, length-append prefix v) in
    rw (fits, put_over_zeros front prefix off n e)
      (put_over_zeros (front ++ prefix) v (off + 2) (n - length prefix) behind
        ∙ rw (left, append_assoc front) (sym (put_over_zeros front (prefix ++ v) off n e)))
entry_written (suc stride) off v front n h e k =
    let fixed : suc stride == 0 ≡ false = ground arith in rw fixed

module _ (fixed : ℕ) (xs ys : List Bytes) where
  abbrev pub count_of : ℕ
  count_of = length (xs ++ ys)

  abbrev pub data_of : ℕ
  data_of = length (body fixed (xs ++ ys))

  unfoldable pub head_of : Bytes
  head_of = header count_of data_of ++ body fixed xs

  pub image-split : image fixed (xs ++ ys) ≡ head_of ++ body fixed ys
  unfolding image head_of
  image-split = rw (body-append fixed xs ys) (
      sym (
        append_assoc (header (length (xs ++ ys)) (length (body fixed xs ++ body fixed ys)))
          (body fixed xs) (body fixed ys)))

  pub length-head_of : length head_of ≡ 4 + length (body fixed xs)
  unfolding head_of
  length-head_of = omega (
    arith,
    length-append (header count_of data_of) (body fixed xs),
    length-header count_of data_of,
  )

  pub front_slice : slice_of (image fixed (xs ++ ys)) 0 (4 + length (body fixed xs)) ≡ ok head_of
  front_slice = rw image-split (
      slice_of-append [] head_of (body fixed ys) 0 (4 + length (body fixed xs)) refl
        (omega (arith, length-head_of)))

  back_slice :
      slice_of (image fixed (xs ++ ys)) (4 + length (body fixed xs)) (4 + data_of)
      ≡ ok (body fixed ys)
  back_slice =
      let sizes = length-append (body fixed xs) (body fixed ys) in
      let found =
        slice_of-append head_of (body fixed ys) [] (4 + length (body fixed xs)) (4 + data_of)
          length-head_of (omega (arith, ap (λ (b : Bytes). length b) (body-append fixed xs ys))) in
      rw image-split (rw append-nil at found)

  pub data_of-sum : data_of ≡ length (body fixed xs) + length (body fixed ys)
  data_of-sum =
      ap (λ (b : Bytes). length b) (body-append fixed xs ys)
      ∙ length-append (body fixed xs) (body fixed ys)

  module _ (t : Bytes) (h : Sized fixed t) where
    abbrev pub with_value : List Bytes
    with_value = xs ++ t ∷ ys

    pub body-with_value : body fixed with_value ≡ body fixed xs ++ (entry fixed t ++ body fixed ys)
    unfolding body
    body-with_value = body-append fixed xs (t ∷ ys)

    pub length-with_value : length with_value ≡ count_of + 1
    length-with_value = omega (arith, length-append xs (t ∷ ys), length-append xs ys)

    pub length-body-with_value : length (body fixed with_value) ≡ data_of + length (entry fixed t)
    length-body-with_value =
        ap (λ (b : Bytes). length b) body-with_value
        ∙ omega (
          arith,
          data_of-sum,
          length-append (body fixed xs) (entry fixed t ++ body fixed ys),
          length-append (entry fixed t) (body fixed ys),
        )

    header_inserted :
        length with_value < 2 ^ 16
        → length (body fixed with_value) < 2 ^ 16
        → put_uint16
            (put_uint16 (head_of ++ (entry fixed t ++ body fixed ys)) 0 ((count_of + 1) % 2 ^ 16))
            2
            ((data_of + length (entry fixed t)) % 2 ^ 16)
          ≡ image fixed with_value
    unfolding head_of image
    header_inserted few small =
        let count : (count_of + 1) % 2 ^ 16 ≡ length with_value =
          omega (arith, length-with_value) in
        let size : (data_of + length (entry fixed t)) % 2 ^ 16 ≡ length (body fixed with_value) =
          omega (arith, length-body-with_value) in
        let rest = entry fixed t ++ body fixed ys in
        ap
          (λ (b : Bytes).
            put_uint16 (put_uint16 b 0 ((count_of + 1) % 2 ^ 16)) 2
              ((data_of + length (entry fixed t)) % 2 ^ 16))
          (append_assoc (header count_of data_of) (body fixed xs) rest)
        ∙ header_set count_of data_of _ _ (body fixed xs ++ rest)
        ∙ rw (count, size, ← body-with_value)

    buffer_inserted :
        put (4 + length (body fixed xs) + length (entry fixed t)) (body fixed ys) (
          write_subpage_entry
            (put 0 head_of (replicate (4 + data_of + length (entry fixed t)) 0))
            (4 + length (body fixed xs))
            t
            fixed)
        ≡ head_of ++ (entry fixed t ++ body fixed ys)
    buffer_inserted =
        let head = head_of in
        let off = 4 + length (body fixed xs) in
        let mid = entry fixed t in
        let n = 4 + data_of + length mid in
        let room : length mid ≤ n - length head = omega (arith, data_of-sum, length-head_of) in
        ap
          (λ (b : Bytes).
            put (off + length mid) (body fixed ys) (write_subpage_entry b off t fixed))
          (put_over_zeros [] head 0 n refl)
        ∙ ap (λ (b : Bytes). put (off + length mid) (body fixed ys) b)
            (entry_written fixed off t head (n - length head) h length-head_of room)
        ∙ spliced head mid (body fixed ys) off (n - length head) length-head_of
            (omega (arith, data_of-sum, length-head_of))

    -- Insert behind its search, on an index that splits the values.
    pub insert_at-splice :
        All (Sized fixed) xs
        → length with_value < 2 ^ 16
        → length (body fixed with_value) < 2 ^ 16
        → insert_at (reader fixed (xs ++ ys)) t (length xs) ≡ ok (image fixed with_value, true)
    unfolding insert_at reader size_bytes
    insert_at-splice sized few small =
        let size = subpage_entry_size-lem fixed t h in
        let count_fits : leb (count_of + 1) (2 ^ 16 - 1) ≡ true =
          ground (arith, length-with_value) in
        let data_fits : leb (data_of + length (entry fixed t)) (2 ^ 16 - 1) ≡ true =
          ground (arith, length-body-with_value) in
        rw (size, count_fits, data_fits)
          (rw (entry_offset-lem fixed xs ys sized) (
            rw front_slice
              (rw back_slice (rw buffer_inserted (rw (header_inserted few small) refl)))))
