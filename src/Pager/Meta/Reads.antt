-- ===== src/Pager/Meta/Reads.antt =====
-- The reads of a meta page (internal/pager/meta.go).
use gmdb.Common.{
  ℕ, ◌+◌, ◌^◌, ◌<◌, ◌++◌, Bytes, length, drop, take-append_left, drop-append_left, ◌≡◌, ◌∙◌, arith,
  append_assoc, length-append,
}
use gmdb.Common.Buffer.{le_bytes, from_le, concat, get_uint32, get_uint64, slice}
use gmdb.Common.Buffer.Laws.{from_le-le_bytes, drop-append_more}
use gmdb.Pager.Meta.{Meta, read_durable, read_meta}
use gmdb.Pager.Meta.Image.{MetaFits, head_fields, tail_fields, length_head}

-- Behind 24 bytes and the UUID.
get_uint64_past :
    (h u t : Bytes) (k : ℕ)
    → length h + length u ≡ 40
    → get_uint64 (h ++ (u ++ t)) (40 + k) ≡ get_uint64 t k
unfolding get_uint64
get_uint64_past h u t k e =
    rw (← append_assoc h u t, ← e, ← length-append h u, drop-append_more (h ++ u) t k)

slice_uuid : (h u t : Bytes) → length h ≡ 24 → length u ≡ 16 → slice 24 16 (h ++ (u ++ t)) ≡ u
slice_uuid h u t e f =
    let behind : drop 24 (h ++ (u ++ t)) ≡ u ++ t = rw (← e) (drop-append_left h (u ++ t)) in
    rw behind (rw (← f) (take-append_left u t))

-- The fields of a meta page whose bytes behind the UUID are `tail`.
module _ (m : Meta) (f : MetaFits m) (c : ℕ) (fits : c < 2 ^ 64) (rest : Bytes) where
  abbrev tail : Bytes
  tail = concat (tail_fields m) ++ (le_bytes 8 c ++ rest)

  abbrev page : Bytes
  page = concat (head_fields m) ++ (m.uuid ++ tail)

  tail_at : (k : ℕ) → get_uint64 page (40 + k) ≡ get_uint64 tail k
  tail_at k =
      get_uint64_past (concat (head_fields m)) m.uuid tail k (omega (arith, length_head m, f.uuid))

  read_durable-page : read_durable page ≡ m.durable
  unfolding read_durable get_uint64 from_le concat le_bytes
  read_durable-page = λ i. record {
    txn_id = (tail_at 104 ∙ from_le-le_bytes 8 m.durable.txn_id f.durable.txn_id) i;
    anchored_txn_id =
        (tail_at 112 ∙ from_le-le_bytes 8 m.durable.anchored_txn_id f.durable.anchored_txn_id) i;
    high_water_mark =
        (tail_at 120 ∙ from_le-le_bytes 8 m.durable.high_water_mark f.durable.high_water_mark) i;
    rpl_head_page =
        (tail_at 128 ∙ from_le-le_bytes 8 m.durable.rpl_head_page f.durable.rpl_head_page) i;
    rpl_head_txn_id =
        (tail_at 136 ∙ from_le-le_bytes 8 m.durable.rpl_head_txn_id f.durable.rpl_head_txn_id) i;
    rpl_tail_page =
        (tail_at 144 ∙ from_le-le_bytes 8 m.durable.rpl_tail_page f.durable.rpl_tail_page) i;
    rpl_entry_count =
        (tail_at 152 ∙ from_le-le_bytes 8 m.durable.rpl_entry_count f.durable.rpl_entry_count) i;
    num_free_pages =
        (tail_at 160 ∙ from_le-le_bytes 8 m.durable.num_free_pages f.durable.num_free_pages) i;
    keyspace_root =
        (tail_at 168 ∙ from_le-le_bytes 8 m.durable.keyspace_root f.durable.keyspace_root) i;
    num_keyspaces =
        (tail_at 176 ∙ from_le-le_bytes 8 m.durable.num_keyspaces f.durable.num_keyspaces) i;
  }

  pub read_meta-page : read_meta page ≡ record m { checksum = c }
  unfolding read_meta get_uint32 get_uint64 from_le concat le_bytes
  read_meta-page = λ i. record {
    magic = from_le-le_bytes 4 m.magic f.magic i;
    version = from_le-le_bytes 4 m.version f.version i;
    page_size = from_le-le_bytes 4 m.page_size f.page_size i;
    flags = from_le-le_bytes 4 m.flags f.flags i;
    bitmap_pages = from_le-le_bytes 4 m.bitmap_pages f.bitmap_pages i;
    uuid = slice_uuid (concat (head_fields m)) m.uuid tail (length_head m) f.uuid i;
    min_size = (tail_at 0 ∙ from_le-le_bytes 8 m.min_size f.min_size) i;
    max_size = (tail_at 8 ∙ from_le-le_bytes 8 m.max_size f.max_size) i;
    grow_step = (tail_at 16 ∙ from_le-le_bytes 8 m.grow_step f.grow_step) i;
    shrink_threshold = (tail_at 24 ∙ from_le-le_bytes 8 m.shrink_threshold f.shrink_threshold) i;
    high_water_mark = (tail_at 32 ∙ from_le-le_bytes 8 m.high_water_mark f.high_water_mark) i;
    rpl_head_page = (tail_at 40 ∙ from_le-le_bytes 8 m.rpl_head_page f.rpl_head_page) i;
    rpl_head_txn_id = (tail_at 48 ∙ from_le-le_bytes 8 m.rpl_head_txn_id f.rpl_head_txn_id) i;
    rpl_tail_page = (tail_at 56 ∙ from_le-le_bytes 8 m.rpl_tail_page f.rpl_tail_page) i;
    rpl_entry_count = (tail_at 64 ∙ from_le-le_bytes 8 m.rpl_entry_count f.rpl_entry_count) i;
    num_free_pages = (tail_at 72 ∙ from_le-le_bytes 8 m.num_free_pages f.num_free_pages) i;
    keyspace_root = (tail_at 80 ∙ from_le-le_bytes 8 m.keyspace_root f.keyspace_root) i;
    num_keyspaces = (tail_at 88 ∙ from_le-le_bytes 8 m.num_keyspaces f.num_keyspaces) i;
    txn_id = (tail_at 96 ∙ from_le-le_bytes 8 m.txn_id f.txn_id) i;
    durable = read_durable-page i;
    checksum = (tail_at 184 ∙ from_le-le_bytes 8 c fits) i;
  }
