-- ===== src/Pager/Rpl/Segment/RoundTrip.antt =====
-- The segment codec (internal/pager/rplformat.go).
use gmdb.Common.{
  ℕ, suc, ◌+◌, ◌-◌, ◌*◌, ◌%◌, ◌^◌, ◌≤◌, ◌<◌, List, [], ◌∷◌, ◌++◌, false, All, Bytes, Option, some,
  ltb, length, replicate, length-append, length-drop, length-replicate, take, drop, drop-append_at,
  take-append_at, append_assoc, append-nil, map, ◌≡◌, refl, sym, ap, arith, ◌∙◌, le→not_ltb, ok,
}
use gmdb.Common.Buffer.{
  le_bytes, from_le, put, put_all, concat, get_uint16, get_uint32, get_uint64, put_uint16,
  put_uint32, put_uint64, clear,
}
use gmdb.Common.Buffer.Laws.{from_le-le_bytes, length-le_bytes, put_all-concat}
use gmdb.Page
use gmdb.Page.Config.{Config, valid_page_size, must_validate, content_end, type_rpl_segment}
use gmdb.Page.Header.{read_header, put_header}
use gmdb.Pager.Rpl.Segment.{
  entries_per_segment, read_ids, decode_body, decode_rpl_segment, write_ids, write_segment,
  encode_rpl_segment, rpl_header_size,
}

id_bytes : List ℕ → List Bytes
id_bytes ids = map (le_bytes 8) ids

-- The ids written one behind the other, and what follows them.
put_all-id_bytes :
    (ids : List ℕ) (off : ℕ) (parts : List Bytes) (buf : Bytes)
    → put_all off (id_bytes ids ++ parts) buf
      ≡ put_all (off + length ids * 8) parts (write_ids buf off ids)
unfolding put_all write_ids id_bytes put_uint64 le_bytes put
put_all-id_bytes [] off parts buf = let same : off + 0 * 8 ≡ off = omega arith in rw same
put_all-id_bytes (id ∷ ids) off parts buf =
    let next : off + 8 + length ids * 8 ≡ off + suc (length ids) * 8 = omega arith in
    rw (
      length-le_bytes 8 id,
      put_all-id_bytes ids (off + 8) parts (put off (le_bytes 8 id) buf),
      next,
    )

-- Reading the ids back from behind a front part.
read_ids-concat :
    (ids : List ℕ) (front rest : Bytes) (off : ℕ)
    → length front ≡ off
    → All (λ id. id < 2 ^ 64) ids
    → read_ids (front ++ (concat (id_bytes ids) ++ rest)) off (length ids) ≡ ids
unfolding read_ids concat id_bytes get_uint64 le_bytes
read_ids-concat [] front rest off e h = refl
read_ids-concat (id ∷ ids) front rest off e h =
    let bytes = le_bytes 8 id in
    let tail = concat (id_bytes ids) ++ rest in
    let here : from_le (take 8 (drop off (front ++ (bytes ++ tail)))) ≡ id =
      rw
        (
          drop-append_at off front (bytes ++ tail) e,
          take-append_at 8 bytes tail (length-le_bytes 8 id),
        )
        (from_le-le_bytes 8 id h.0) in
    let later : read_ids ((front ++ bytes) ++ tail) (off + 8) (length ids) ≡ ids =
      read_ids-concat ids (front ++ bytes) rest (off + 8)
        (omega (arith, length-append front bytes, length-le_bytes 8 id)) h.1 in
    rw (append_assoc bytes (concat (id_bytes ids)) rest, here)
      (ap (λ (t : List ℕ). id ∷ t) (rw append_assoc at later))

-- The images of the fields of a segment, in file order; `gap` bytes are cleared behind the ids.
abbrev parts : ℕ → ℕ → List ℕ → ℕ → List Bytes
parts txn_id older ids gap =
    (type_rpl_segment ∷ [])
    ∷ (0 ∷ [])
    ∷ le_bytes 2 (length ids % 2 ^ 16)
    ∷ le_bytes 4 0
    ∷ le_bytes 8 txn_id
    ∷ le_bytes 8 older
    ∷ (id_bytes ids ++ replicate gap 0 ∷ [])

abbrev gap_of : Config → List ℕ → ℕ
gap_of cfg ids = content_end cfg - (rpl_header_size + length ids * 8)

write_segment-parts :
    (buf : Bytes) (cfg : Config) (txn_id older : ℕ) (ids : List ℕ)
    → write_segment buf cfg txn_id older ids
      ≡ put_all 0 (parts txn_id older ids (gap_of cfg ids)) buf
unfolding write_segment put_header put_all put_uint16 put_uint32 put_uint64 clear le_bytes
write_segment-parts buf cfg txn_id older ids =
    sym (put_all-id_bytes ids 24 (replicate (gap_of cfg ids) 0 ∷ []) _)

concat-append : (xs ys : List Bytes) → concat (xs ++ ys) ≡ concat xs ++ concat ys
unfolding concat
concat-append [] ys = refl
concat-append (x ∷ xs) ys = rw (append_assoc x (concat xs), concat-append xs ys)

-- The first 24 bytes, and the whole page up to the end of its content.
header_bytes : ℕ → ℕ → List ℕ → Bytes
unfolding le_bytes
header_bytes txn_id older ids =
    (type_rpl_segment ∷ 0 ∷ [])
    ++ (le_bytes 2 (length ids % 2 ^ 16)
        ++ (le_bytes 4 0 ++ (le_bytes 8 txn_id ++ le_bytes 8 older)))

pub image : Config → ℕ → ℕ → List ℕ → Bytes
unfolding header_bytes id_bytes
image cfg txn_id older ids =
    header_bytes txn_id older ids ++ (concat (id_bytes ids) ++ replicate (gap_of cfg ids) 0)

parts-image :
    (cfg : Config) (txn_id older : ℕ) (ids : List ℕ)
    → concat (parts txn_id older ids (gap_of cfg ids)) ≡ image cfg txn_id older ids
unfolding concat image le_bytes
parts-image cfg txn_id older ids =
    let behind : concat (id_bytes ids ++ replicate (gap_of cfg ids) 0 ∷ [])
        ≡ concat (id_bytes ids) ++ (replicate (gap_of cfg ids) 0 ++ []) =
      concat-append (id_bytes ids) (replicate (gap_of cfg ids) 0 ∷ []) in
    rw (behind, append-nil)

length-id_bytes : (ids : List ℕ) → length (concat (id_bytes ids)) ≡ length ids * 8
unfolding concat id_bytes
length-id_bytes [] = refl
length-id_bytes (id ∷ ids) = omega (
  arith,
  length-append (le_bytes 8 id) (concat (id_bytes ids)),
  length-le_bytes 8 id,
  length-id_bytes ids,
)

-- The ids lie inside the content of a valid page, and 16 bits hold their number.
fits_page :
    (cfg : Config) (n : ℕ)
    → Page.Config.validate cfg ≡ ok tt
    → n ≤ entries_per_segment cfg
    → (24 + n * 8 ≤ content_end cfg)
      × (content_end cfg ≤ cfg.page_size)
      × (n < 2 ^ 16)
      × (8 ≤ cfg.page_size)
unfolding Page.Config.validate valid_page_size entries_per_segment content_end
fits_page cfg n v h = ground arith

length-image :
    (cfg : Config) (txn_id older : ℕ) (ids : List ℕ)
    → 24 + length ids * 8 ≤ content_end cfg
    → length (image cfg txn_id older ids) ≡ content_end cfg
unfolding image header_bytes
length-image cfg txn_id older ids h = omega (
  arith,
  length-append (concat (id_bytes ids)) (replicate (gap_of cfg ids) 0),
  length-id_bytes ids,
  length-replicate {A = ℕ} (gap_of cfg ids) 0,
)

must_validate_lem {ℓ} :
    {A : Type ℓ} (cfg : Config) (next : Option A)
    → Page.Config.validate cfg ≡ ok tt
    → must_validate cfg next ≡ next
unfolding must_validate
must_validate_lem cfg next v = rw (v, must_validate)

module _ (cfg : Config) (txn_id older : ℕ) (ids : List ℕ) (rest : Bytes) where
  page_of : Bytes
  page_of = image cfg txn_id older ids ++ rest

  read_count : length ids < 2 ^ 16 → get_uint16 page_of 2 ≡ length ids
  unfolding page_of image header_bytes get_uint16
  read_count h = from_le-le_bytes 2 (length ids % 2 ^ 16) (omega arith) ∙ omega arith

  read_header-image :
      length ids < 2 ^ 16
      → 24 ≤ length page_of
      → read_header page_of
        ≡ some (record { typ = type_rpl_segment; flags = 0; count = length ids; additional = 0 })
  unfolding read_header
  read_header-image h k =
      let short : ltb (length page_of) 8 ≡ false = ground arith in
      rw (short, read_count h) (unfold page_of image header_bytes get_uint32 from_le in refl)

  length-header_bytes : length (header_bytes txn_id older ids) ≡ 24
  unfolding header_bytes
  length-header_bytes = refl

  ids-image : All (λ id. id < 2 ^ 64) ids → read_ids page_of 24 (length ids) ≡ ids
  unfolding page_of image
  ids-image h =
      let gap = replicate (gap_of cfg ids) 0 in
      let front = header_bytes txn_id older ids in
      let regroup : (front ++ (concat (id_bytes ids) ++ gap)) ++ rest
          ≡ front ++ (concat (id_bytes ids) ++ (gap ++ rest)) =
        append_assoc front (concat (id_bytes ids) ++ gap) rest
        ∙ ap (λ (t : Bytes). front ++ t) (append_assoc (concat (id_bytes ids)) gap rest) in
      ap (λ (t : Bytes). read_ids t 24 (length ids)) regroup
      ∙ read_ids-concat ids front (gap ++ rest) 24 length-header_bytes h

  decode_body-image :
      txn_id < 2 ^ 64
      → older < 2 ^ 64
      → All (λ id. id < 2 ^ 64) ids
      → length ids ≤ entries_per_segment cfg
      → decode_body page_of cfg
          (record { typ = type_rpl_segment; flags = 0; count = length ids; additional = 0 })
        ≡ some (record { txn_id = txn_id; older_segment = older; page_ids = ids })
  unfolding decode_body
  decode_body-image ht ho hi k =
      let few : ltb (entries_per_segment cfg) (length ids) ≡ false = ground arith in
      let same_txn : get_uint64 page_of 8 ≡ txn_id =
        unfold page_of image header_bytes get_uint64 in from_le-le_bytes 8 txn_id ht in
      let same_older : get_uint64 page_of 16 ≡ older =
        unfold page_of image header_bytes get_uint64 in from_le-le_bytes 8 older ho in
      let same_ids : read_ids page_of 24 (length ids) ≡ ids = ids-image hi in
      rw (few, same_txn, same_older, same_ids)

-- The values that a segment's fields hold.
pub record Fits (txn_id older : ℕ) (ids : List ℕ) : Type 0 where
  pub txn_id_fits : txn_id < 2 ^ 64
  pub older_fits : older < 2 ^ 64
  pub ids_fit : All (λ id. id < 2 ^ 64) ids

-- EncodeRPLSegment, for a valid configuration, a buffer of a page or more and no more ids than a segment
-- holds, does not panic; it rewrites the content of the page and keeps every byte behind it. On that page
-- DecodeRPLSegment returns the transaction id, the older segment and the ids. The fields fit 64 bits.
pub decode-encode_rpl_segment :
    (buf : Bytes) (cfg : Config) (txn_id older : ℕ) (ids : List ℕ)
    → Page.Config.validate cfg ≡ ok tt
    → cfg.page_size ≤ length buf
    → length ids ≤ entries_per_segment cfg
    → Fits txn_id older ids
    → (out : Bytes) × (encode_rpl_segment buf cfg txn_id older ids ≡ some out)
      × (length out ≡ length buf)
      × (drop (content_end cfg) out ≡ drop (content_end cfg) buf)
      × (decode_rpl_segment out cfg
          ≡ some (some (record { txn_id = txn_id; older_segment = older; page_ids = ids })))
unfolding encode_rpl_segment decode_rpl_segment page_of
decode-encode_rpl_segment buf cfg txn_id older ids v big few f =
    let (content, inside, small, room) = fits_page cfg (length ids) v few in
    let rest = drop (content_end cfg) buf in
    let out = image cfg txn_id older ids ++ rest in
    let size : length (image cfg txn_id older ids) ≡ content_end cfg =
      length-image cfg txn_id older ids content in
    let whole : length out ≡ length buf =
      omega (
        arith,
        length-append (image cfg txn_id older ids) rest,
        length-drop (content_end cfg) buf,
      ) in
    let header_room : 24 ≤ length out = omega (arith, whole) in
    let written : write_segment buf cfg txn_id older ids ≡ out =
      write_segment-parts buf cfg txn_id older ids
      ∙ put_all-concat (parts txn_id older ids (gap_of cfg ids)) buf
      ∙ rw (parts-image cfg txn_id older ids, size) in
    let long : ltb (length buf) cfg.page_size ≡ false = le→not_ltb _ _ big in
    let long_out : ltb (length out) cfg.page_size ≡ false = ground arith in
    let count_ok : ltb (entries_per_segment cfg) (length ids) ≡ false = le→not_ltb _ _ few in
    (
      out,
      must_validate_lem cfg _ v ∙ rw (long, count_ok) (ap some written),
      whole,
      drop-append_at (content_end cfg) (image cfg txn_id older ids) rest size,
      must_validate_lem cfg _ v
          ∙ rw (long_out) (
              rw (read_header-image cfg txn_id older ids rest small header_room) (
                ap some (
                  decode_body-image cfg txn_id older ids rest f.txn_id_fits f.older_fits f.ids_fit
                    few))),
    )
