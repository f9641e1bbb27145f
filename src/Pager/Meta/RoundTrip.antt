-- ===== src/Pager/Meta/RoundTrip.antt =====
-- The meta page codec (internal/pager/meta.go).
use gmdb.Common.{
  ℕ, ◌^◌, ◌≤◌, ◌<◌, ◌++◌, Bytes, some, true, length, length-append, drop, take-append_left, ==_self,
  ltb, le→not_ltb, false, ◌≡◌, ap, ◌∙◌, arith, append_assoc, refl,
}
use gmdb.Common.Buffer.{le_bytes, concat, get_uint64, put_uint64, put}
use gmdb.Common.Buffer.Laws.{length-le_bytes, put-append, drop-drop}
use gmdb.Pager.Meta.{
  Meta, read_meta, decode_meta, compute_meta_checksum, encode_meta, verify_meta, meta_payload_size,
  meta_off_checksum,
}
use gmdb.Pager.Meta.Image.{
  MetaFits, head_fields, tail_fields, meta_prefix, length_prefix, write_meta-prefix,
}
use gmdb.Pager.Meta.Reads.{read_meta-page}

assoc_runs : (h u t c r : Bytes) → ((h ++ (u ++ t)) ++ c) ++ r ≡ h ++ (u ++ (t ++ (c ++ r)))
assoc_runs h u t c r = simp append_assoc

module _ (hash : Bytes → ℕ) where
  -- The 232 bytes of a meta page.
  unfoldable pub meta_payload : Meta → Bytes
  meta_payload m = meta_prefix m ++ le_bytes 8 (hash (meta_prefix m))

  -- The meta with the checksum that `EncodeMeta` stores.
  unfoldable pub sealed : Meta → Meta
  sealed m = record m { checksum = hash (meta_prefix m) }

  checksum_of :
      (m : Meta) (rest : Bytes)
      → MetaFits m
      → compute_meta_checksum hash (meta_prefix m ++ rest) ≡ hash (meta_prefix m)
  unfolding compute_meta_checksum
  checksum_of m rest f = rw (← length_prefix m f) (ap hash (take-append_left (meta_prefix m) rest))

  put_checksum :
      (m : Meta) (buf : Bytes) (c : ℕ)
      → MetaFits m
      → put_uint64 (meta_prefix m ++ drop meta_off_checksum buf) meta_off_checksum c
        ≡ (meta_prefix m ++ le_bytes 8 c) ++ drop meta_payload_size buf
  unfolding put_uint64
  put_checksum m buf c f =
      let step : put meta_off_checksum (le_bytes 8 c) (meta_prefix m ++ drop meta_off_checksum buf)
          ≡ (meta_prefix m ++ le_bytes 8 c)
            ++ drop (length (le_bytes 8 c)) (drop meta_off_checksum buf) =
        rw (← length_prefix m f) (put-append (meta_prefix m) _ (le_bytes 8 c)) in
      step ∙ rw (length-le_bytes 8 c, drop-drop meta_off_checksum 8 buf)

  length-meta_payload : (m : Meta) → MetaFits m → length (meta_payload m) ≡ meta_payload_size
  unfolding meta_payload
  length-meta_payload m f = omega (
    arith,
    length-append (meta_prefix m) (le_bytes 8 (hash (meta_prefix m))),
    length-le_bytes 8 (hash (meta_prefix m)),
    length_prefix m f,
  )

  payload_not_short :
      (m : Meta) (rest : Bytes)
      → MetaFits m
      → ltb (length (meta_payload m ++ rest)) meta_payload_size ≡ false
  payload_not_short m rest f =
      le→not_ltb _ _ (omega (arith, length-append (meta_payload m) rest, length-meta_payload m f))

  pub encode_meta-payload :
      (buf : Bytes) (m : Meta)
      → meta_payload_size ≤ length buf
      → MetaFits m
      → encode_meta hash buf m ≡ some (meta_payload m ++ drop meta_payload_size buf, sealed m)
  unfolding encode_meta meta_payload sealed
  encode_meta-payload buf m h f = rw (
    le→not_ltb (length buf) meta_payload_size h,
    write_meta-prefix buf m f,
    checksum_of m (drop meta_off_checksum buf) f,
    put_checksum m buf (hash (meta_prefix m)) f,
  )

  module _ (bound : (bs : Bytes) → hash bs < 2 ^ 64) where
    pub read_meta-payload :
        (m : Meta) (rest : Bytes) → MetaFits m → read_meta (meta_payload m ++ rest) ≡ sealed m
    unfolding meta_payload sealed
    read_meta-payload m rest f =
        let flat : meta_payload m ++ rest
            ≡ concat (head_fields m)
              ++ (m.uuid
                  ++ (concat (tail_fields m) ++ (le_bytes 8 (hash (meta_prefix m)) ++ rest))) =
          unfold meta_prefix in assoc_runs (concat (head_fields m)) m.uuid _ _ rest in
        ap read_meta flat ∙ read_meta-page m f (hash (meta_prefix m)) (bound _) rest

    stored_checksum :
        (m : Meta) (rest : Bytes)
        → MetaFits m
        → get_uint64 (meta_payload m ++ rest) meta_off_checksum ≡ hash (meta_prefix m)
    unfolding read_meta sealed
    stored_checksum m rest f = ap (λ (x : Meta). x.checksum) (read_meta-payload m rest f)

    payload_checksum :
        (m : Meta) (rest : Bytes)
        → MetaFits m
        → compute_meta_checksum hash (meta_payload m ++ rest) ≡ hash (meta_prefix m)
    unfolding meta_payload
    payload_checksum m rest f = rw (append_assoc (meta_prefix m)) (checksum_of m _ f)

    pub verify_meta-payload :
        (m : Meta) (rest : Bytes)
        → MetaFits m
        → verify_meta hash (meta_payload m ++ rest) ≡ some true
    unfolding verify_meta
    verify_meta-payload m rest f =
        let stored : get_uint64 (meta_payload m ++ rest) meta_off_checksum ≡ hash (meta_prefix m) =
          stored_checksum m rest f in
        let computed : compute_meta_checksum hash (meta_payload m ++ rest) ≡ hash (meta_prefix m) =
          payload_checksum m rest f in
        rw (payload_not_short m rest f, stored, computed, ==_self (hash (meta_prefix m))) refl

    -- EncodeMeta writes into every buffer of 232 bytes or more an image that depends on the meta alone,
    -- keeps the bytes behind it and returns the meta with its checksum; the image verifies, and
    -- DecodeMeta reads that meta back from it.
    pub decode_meta-encode_meta :
        (buf : Bytes) (m : Meta)
        → meta_payload_size ≤ length buf
        → MetaFits m
        → (encode_meta hash buf m ≡ some (meta_payload m ++ drop meta_payload_size buf, sealed m))
          × (decode_meta (meta_payload m ++ drop meta_payload_size buf) ≡ some (sealed m))
          × (verify_meta hash (meta_payload m ++ drop meta_payload_size buf) ≡ some true)
    unfolding decode_meta
    decode_meta-encode_meta buf m h f = (
      encode_meta-payload buf m h f,
      rw (
        payload_not_short m (drop meta_payload_size buf) f,
        read_meta-payload m (drop meta_payload_size buf) f,
      ),
      verify_meta-payload m (drop meta_payload_size buf) f,
    )
