-- ===== src/Pager/Meta/Selection.antt =====
-- Which meta page is active (internal/pager/meta.go, ActiveMeta).
use gmdb.Common.{
  ℕ, ◌≤◌, ◌<◌, true, false, Bytes, Option, none, some, [], ◌≡◌, ◌∙◌, refl, sym, ap, arith, ◌^◌,
  ◌++◌, lt→ltb, le→not_ltb, length, drop,
}
use gmdb.Common.Buffer.{get_uint64}
use gmdb.Pager.Meta.Image.{MetaFits}
use gmdb.Pager.Meta.RoundTrip.{
  meta_payload, sealed, read_meta-payload, verify_meta-payload, encode_meta-payload,
}
use gmdb.Pager.Meta.{
  Meta, read_meta, encode_meta, verify_meta, active_of, active_meta, meta_off_txn_id,
  meta_payload_size,
}

abbrev txn_of : Bytes → ℕ
txn_of meta = get_uint64 meta meta_off_txn_id

lt_le : {a b : ℕ} → a < b → a ≤ b
lt_le h = omega arith

written_image : Option (Bytes × Meta) → Bytes
written_image none = []
written_image (some (image, m)) = image

module _ (hash : Bytes → ℕ) (bound : (bs : Bytes) → hash bs < 2 ^ 64) where
  txn_of-payload :
      (m : Meta) (rest : Bytes) → MetaFits m → txn_of (meta_payload hash m ++ rest) ≡ m.txn_id
  unfolding read_meta sealed
  txn_of-payload m rest f = ap (λ (x : Meta). x.txn_id) (read_meta-payload hash bound m rest f)

  -- An image that `EncodeMeta` writes is the payload and what stood behind it.
  image_lem :
      (buf : Bytes) (m written : Meta) (image : Bytes)
      → meta_payload_size ≤ length buf
      → MetaFits m
      → encode_meta hash buf m ≡ some (image, written)
      → image ≡ meta_payload hash m ++ drop meta_payload_size buf
  unfolding written_image
  image_lem buf m written image h f e =
      ap written_image (sym e ∙ encode_meta-payload hash buf m h f)

  -- What `ActiveMeta` reads of an image that `EncodeMeta` writes.
  read_back :
      (buf : Bytes) (m written : Meta) (image : Bytes)
      → meta_payload_size ≤ length buf
      → MetaFits m
      → encode_meta hash buf m ≡ some (image, written)
      → (verify_meta hash image ≡ some true) × (txn_of image ≡ m.txn_id)
  read_back buf m written image h f e = rw (image_lem buf m written image h f e) (
    verify_meta-payload hash bound m (drop meta_payload_size buf) f,
    txn_of-payload m (drop meta_payload_size buf) f,
  )

  -- With the image that EncodeMeta writes of the old meta in one slot, ActiveMeta names that slot for
  -- every image of 232 bytes or more in the other slot that does not verify, and the other slot for the
  -- image that EncodeMeta writes there of a meta of a greater transaction id. This holds for either slot,
  -- where both metas fit their fields and the hash is of 64 bits.
  pub commit_switch :
      (buf buf' : Bytes) (old new old' new' : Meta) (image image' torn : Bytes)
      → meta_payload_size ≤ length buf
      → meta_payload_size ≤ length buf'
      → MetaFits old
      → MetaFits new
      → old.txn_id < new.txn_id
      → encode_meta hash buf old ≡ some (image, old')
      → encode_meta hash buf' new ≡ some (image', new')
      → verify_meta hash torn ≡ some false
      → (active_meta hash image torn ≡ some (some 0))
        × (active_meta hash image image' ≡ some (some 1))
        × (active_meta hash torn image ≡ some (some 1))
        × (active_meta hash image' image ≡ some (some 0))
  unfolding active_meta active_of
  commit_switch buf buf' old new old' new' image image' torn h h' fo fn lt eo en bad =
      let (vo, to) = read_back buf old old' image h fo eo in
      let (vn, tn) = read_back buf' new new' image' h' fn en in
      (
        rw (vo, bad) refl,
        rw (vo, vn, to, tn, lt→ltb _ _ lt) refl,
        rw (bad, vo) refl,
        rw (vn, vo, tn, to, lt→ltb _ _ lt, le→not_ltb _ _ (lt_le lt)) refl,
      )
