-- ===== src/Pager/Meta/Image.antt =====
-- The bytes that EncodeMeta writes (internal/pager/meta.go).
use gmdb.Common.{
  ◌+◌, ◌^◌, ◌<◌, List, [], ◌∷◌, ◌++◌, Bytes, length, length-append, drop, ◌≡◌, refl, arith,
  append_assoc,
}
use gmdb.Common.Buffer.{le_bytes, put_all, concat, put, put_uint32, put_uint64, clear}
use gmdb.Common.Buffer.Laws.{put_all-concat, put_all_front, put-append, drop-drop}
use gmdb.Pager.Meta.{DurableSubRecord, Meta, write_meta, meta_off_checksum}

-- The fields fit their widths, and the UUID has 16 bytes.
pub record DurableFits (d : DurableSubRecord) : Type 0 where
  pub txn_id : d.txn_id < 2 ^ 64
  pub anchored_txn_id : d.anchored_txn_id < 2 ^ 64
  pub high_water_mark : d.high_water_mark < 2 ^ 64
  pub rpl_head_page : d.rpl_head_page < 2 ^ 64
  pub rpl_head_txn_id : d.rpl_head_txn_id < 2 ^ 64
  pub rpl_tail_page : d.rpl_tail_page < 2 ^ 64
  pub rpl_entry_count : d.rpl_entry_count < 2 ^ 64
  pub num_free_pages : d.num_free_pages < 2 ^ 64
  pub keyspace_root : d.keyspace_root < 2 ^ 64
  pub num_keyspaces : d.num_keyspaces < 2 ^ 64

pub record MetaFits (m : Meta) : Type 0 where
  pub magic : m.magic < 2 ^ 32
  pub version : m.version < 2 ^ 32
  pub page_size : m.page_size < 2 ^ 32
  pub flags : m.flags < 2 ^ 32
  pub bitmap_pages : m.bitmap_pages < 2 ^ 32
  pub uuid : length m.uuid ≡ 16
  pub min_size : m.min_size < 2 ^ 64
  pub max_size : m.max_size < 2 ^ 64
  pub grow_step : m.grow_step < 2 ^ 64
  pub shrink_threshold : m.shrink_threshold < 2 ^ 64
  pub high_water_mark : m.high_water_mark < 2 ^ 64
  pub rpl_head_page : m.rpl_head_page < 2 ^ 64
  pub rpl_head_txn_id : m.rpl_head_txn_id < 2 ^ 64
  pub rpl_tail_page : m.rpl_tail_page < 2 ^ 64
  pub rpl_entry_count : m.rpl_entry_count < 2 ^ 64
  pub num_free_pages : m.num_free_pages < 2 ^ 64
  pub keyspace_root : m.keyspace_root < 2 ^ 64
  pub num_keyspaces : m.num_keyspaces < 2 ^ 64
  pub txn_id : m.txn_id < 2 ^ 64
  pub durable : DurableFits m.durable

-- The field images before and behind the UUID, in file order.
abbrev pub head_fields : Meta → List Bytes
head_fields m =
    le_bytes 4 m.magic
    ∷ le_bytes 4 m.version
    ∷ le_bytes 4 m.page_size
    ∷ le_bytes 4 m.flags
    ∷ le_bytes 4 m.bitmap_pages
    ∷ (0 ∷ 0 ∷ 0 ∷ 0 ∷ [])
    ∷ []

abbrev pub tail_fields : Meta → List Bytes
tail_fields m =
    le_bytes 8 m.min_size
    ∷ le_bytes 8 m.max_size
    ∷ le_bytes 8 m.grow_step
    ∷ le_bytes 8 m.shrink_threshold
    ∷ le_bytes 8 m.high_water_mark
    ∷ le_bytes 8 m.rpl_head_page
    ∷ le_bytes 8 m.rpl_head_txn_id
    ∷ le_bytes 8 m.rpl_tail_page
    ∷ le_bytes 8 m.rpl_entry_count
    ∷ le_bytes 8 m.num_free_pages
    ∷ le_bytes 8 m.keyspace_root
    ∷ le_bytes 8 m.num_keyspaces
    ∷ le_bytes 8 m.txn_id
    ∷ le_bytes 8 m.durable.txn_id
    ∷ le_bytes 8 m.durable.anchored_txn_id
    ∷ le_bytes 8 m.durable.high_water_mark
    ∷ le_bytes 8 m.durable.rpl_head_page
    ∷ le_bytes 8 m.durable.rpl_head_txn_id
    ∷ le_bytes 8 m.durable.rpl_tail_page
    ∷ le_bytes 8 m.durable.rpl_entry_count
    ∷ le_bytes 8 m.durable.num_free_pages
    ∷ le_bytes 8 m.durable.keyspace_root
    ∷ le_bytes 8 m.durable.num_keyspaces
    ∷ []

-- The checksummed bytes of a meta page, and the whole payload.
unfoldable pub meta_prefix : Meta → Bytes
meta_prefix m = concat (head_fields m) ++ (m.uuid ++ concat (tail_fields m))

-- The writes before the checksum are three runs of fields.
write_meta-runs :
    (buf : Bytes) (m : Meta)
    → write_meta buf m ≡ put_all 40 (tail_fields m) (put 24 m.uuid (put_all 0 (head_fields m) buf))
unfolding write_meta put_all put_uint32 put_uint64 clear le_bytes
write_meta-runs buf m = refl

pub length_head : (m : Meta) → length (concat (head_fields m)) ≡ 24
unfolding concat le_bytes
length_head m = refl

pub length_tail : (m : Meta) → length (concat (tail_fields m)) ≡ 184
unfolding concat le_bytes
length_tail m = refl

pub length_prefix : (m : Meta) → MetaFits m → length (meta_prefix m) ≡ meta_off_checksum
unfolding meta_prefix
length_prefix m f = omega (
  arith,
  length-append (concat (head_fields m)) (m.uuid ++ concat (tail_fields m)),
  length-append m.uuid (concat (tail_fields m)),
  length_head m,
  length_tail m,
  f.uuid,
)

put_uuid :
    (h rest u : Bytes) → length h ≡ 24 → put 24 u (h ++ rest) ≡ (h ++ u) ++ drop (length u) rest
put_uuid h rest u e = rw (← e) (put-append h rest u)

put_tail :
    (parts : List Bytes) (h u rest : Bytes)
    → length h + length u ≡ 40
    → put_all 40 parts ((h ++ u) ++ rest)
      ≡ (h ++ u) ++ (concat parts ++ drop (length (concat parts)) rest)
put_tail parts h u rest e = rw (← e, ← length-append h u) (put_all_front parts (h ++ u) rest)

pub length_front : (m : Meta) → MetaFits m → length (concat (head_fields m)) + length m.uuid ≡ 40
length_front m f = omega (arith, length_head m, f.uuid)

pub write_meta-prefix :
    (buf : Bytes) (m : Meta)
    → MetaFits m
    → write_meta buf m ≡ meta_prefix m ++ drop meta_off_checksum buf
write_meta-prefix buf m f =
    rw
      (
        write_meta-runs buf m,
        put_all-concat (head_fields m) buf,
        put_uuid (concat (head_fields m)) _ m.uuid (length_head m),
        put_tail (tail_fields m) (concat (head_fields m)) m.uuid _ (length_front m f),
        length_head m,
        length_tail m,
        f.uuid,
        drop-drop,
        drop-drop,
      )
      (unfold meta_prefix in simp append_assoc)
