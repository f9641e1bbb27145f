-- ===== src/Pager/Meta.antt =====
-- internal/pager/meta.go: the two meta pages. XXH3-64 is the parameter `hash`.
pub mod Image
mod Reads
pub mod RoundTrip
pub mod Selection
use gmdb.Common.{
  ℕ, ◌+◌, ◌^◌, List, [], ◌∷◌, Bool, true, false, not, ◌&&◌, Bytes, Result, ok, err, ◌>>◌, guard,
  Option, none, some, ltb, ◌==◌, if◌then◌else◌, length, take, bit_and,
}
use gmdb.Common.Bits.Single.{and_not}
use gmdb.Common.Buffer.{get_uint32, get_uint64, put, put_uint32, put_uint64, clear, slice}
use gmdb.Page.Config.{page_magic, format_version, valid_page_size}

-- `MetaFlagPageChecksum` and `MetaFlagKnownMask`
abbrev pub meta_flag_known_mask : ℕ
meta_flag_known_mask = 1

-- `MetaPayloadSize` and the offset of the checksum.
abbrev pub meta_payload_size : ℕ
meta_payload_size = 232

abbrev pub meta_off_txn_id : ℕ
meta_off_txn_id = 136

abbrev pub meta_off_checksum : ℕ
meta_off_checksum = 224

-- `DurableSubRecord`
pub record DurableSubRecord : Type 0 where
  pub txn_id : ℕ
  pub anchored_txn_id : ℕ
  pub high_water_mark : ℕ
  pub rpl_head_page : ℕ
  pub rpl_head_txn_id : ℕ
  pub rpl_tail_page : ℕ
  pub rpl_entry_count : ℕ
  pub num_free_pages : ℕ
  pub keyspace_root : ℕ
  pub num_keyspaces : ℕ

-- `Meta`; the UUID is 16 bytes.
pub record Meta : Type 0 where
  pub magic : ℕ
  pub version : ℕ
  pub page_size : ℕ
  pub flags : ℕ
  pub bitmap_pages : ℕ
  pub uuid : Bytes
  pub min_size : ℕ
  pub max_size : ℕ
  pub grow_step : ℕ
  pub shrink_threshold : ℕ
  pub high_water_mark : ℕ
  pub rpl_head_page : ℕ
  pub rpl_head_txn_id : ℕ
  pub rpl_tail_page : ℕ
  pub rpl_entry_count : ℕ
  pub num_free_pages : ℕ
  pub keyspace_root : ℕ
  pub num_keyspaces : ℕ
  pub txn_id : ℕ
  pub durable : DurableSubRecord
  pub checksum : ℕ

-- `SelfDurable`
pub self_durable : Meta → Bool
self_durable m = m.durable.txn_id == m.txn_id

-- `LiveSubRecord`; the anchor is the zero value.
pub live_sub_record : Meta → DurableSubRecord
live_sub_record m = record {
  txn_id = m.txn_id;
  anchored_txn_id = 0;
  high_water_mark = m.high_water_mark;
  rpl_head_page = m.rpl_head_page;
  rpl_head_txn_id = m.rpl_head_txn_id;
  rpl_tail_page = m.rpl_tail_page;
  rpl_entry_count = m.rpl_entry_count;
  num_free_pages = m.num_free_pages;
  keyspace_root = m.keyspace_root;
  num_keyspaces = m.num_keyspaces;
}

-- `HasFlag`
pub has_flag : Meta → ℕ → Bool
has_flag m mask = bit_and m.flags mask == mask

-- The reads of `DecodeMeta`.
pub read_durable : Bytes → DurableSubRecord
read_durable buf = record {
  txn_id = get_uint64 buf 144;
  anchored_txn_id = get_uint64 buf 152;
  high_water_mark = get_uint64 buf 160;
  rpl_head_page = get_uint64 buf 168;
  rpl_head_txn_id = get_uint64 buf 176;
  rpl_tail_page = get_uint64 buf 184;
  rpl_entry_count = get_uint64 buf 192;
  num_free_pages = get_uint64 buf 200;
  keyspace_root = get_uint64 buf 208;
  num_keyspaces = get_uint64 buf 216;
}

pub read_meta : Bytes → Meta
unfolding read_durable
read_meta buf = record {
  magic = get_uint32 buf 0;
  version = get_uint32 buf 4;
  page_size = get_uint32 buf 8;
  flags = get_uint32 buf 12;
  bitmap_pages = get_uint32 buf 16;
  uuid = slice 24 16 buf;
  min_size = get_uint64 buf 40;
  max_size = get_uint64 buf 48;
  grow_step = get_uint64 buf 56;
  shrink_threshold = get_uint64 buf 64;
  high_water_mark = get_uint64 buf 72;
  rpl_head_page = get_uint64 buf 80;
  rpl_head_txn_id = get_uint64 buf 88;
  rpl_tail_page = get_uint64 buf 96;
  rpl_entry_count = get_uint64 buf 104;
  num_free_pages = get_uint64 buf 112;
  keyspace_root = get_uint64 buf 120;
  num_keyspaces = get_uint64 buf 128;
  txn_id = get_uint64 buf 136;
  durable = read_durable buf;
  checksum = get_uint64 buf meta_off_checksum;
}

-- `DecodeMeta`; `none` is the panic of its bounds check.
pub decode_meta : Bytes → Option Meta
unfolding read_meta
decode_meta buf = if ltb (length buf) meta_payload_size then none else some (read_meta buf)

-- The writes of `EncodeMeta` before the checksum.
pub write_meta : Bytes → Meta → Bytes
write_meta buf m =
    let buf = put_uint32 buf 0 m.magic in
    let buf = put_uint32 buf 4 m.version in
    let buf = put_uint32 buf 8 m.page_size in
    let buf = put_uint32 buf 12 m.flags in
    let buf = put_uint32 buf 16 m.bitmap_pages in
    let buf = clear buf 20 4 in
    let buf = put 24 m.uuid buf in
    let buf = put_uint64 buf 40 m.min_size in
    let buf = put_uint64 buf 48 m.max_size in
    let buf = put_uint64 buf 56 m.grow_step in
    let buf = put_uint64 buf 64 m.shrink_threshold in
    let buf = put_uint64 buf 72 m.high_water_mark in
    let buf = put_uint64 buf 80 m.rpl_head_page in
    let buf = put_uint64 buf 88 m.rpl_head_txn_id in
    let buf = put_uint64 buf 96 m.rpl_tail_page in
    let buf = put_uint64 buf 104 m.rpl_entry_count in
    let buf = put_uint64 buf 112 m.num_free_pages in
    let buf = put_uint64 buf 120 m.keyspace_root in
    let buf = put_uint64 buf 128 m.num_keyspaces in
    let buf = put_uint64 buf 136 m.txn_id in
    let buf = put_uint64 buf 144 m.durable.txn_id in
    let buf = put_uint64 buf 152 m.durable.anchored_txn_id in
    let buf = put_uint64 buf 160 m.durable.high_water_mark in
    let buf = put_uint64 buf 168 m.durable.rpl_head_page in
    let buf = put_uint64 buf 176 m.durable.rpl_head_txn_id in
    let buf = put_uint64 buf 184 m.durable.rpl_tail_page in
    let buf = put_uint64 buf 192 m.durable.rpl_entry_count in
    let buf = put_uint64 buf 200 m.durable.num_free_pages in
    let buf = put_uint64 buf 208 m.durable.keyspace_root in
    put_uint64 buf 216 m.durable.num_keyspaces

module _ (hash : Bytes → ℕ) where
  -- `ComputeMetaChecksum`
  unfoldable pub compute_meta_checksum : Bytes → ℕ
  compute_meta_checksum buf = hash (take meta_off_checksum buf)

  -- `EncodeMeta`: the buffer and the meta with its checksum; `none` is the panic of the bounds check.
  pub encode_meta : Bytes → Meta → Option (Bytes × Meta)
  unfolding write_meta compute_meta_checksum
  encode_meta buf m =
      let written = write_meta buf m in
      let sum = compute_meta_checksum written in
      if ltb (length buf) meta_payload_size
      then none
      else some (put_uint64 written meta_off_checksum sum, record m { checksum = sum })

  -- `VerifyMeta`; `none` is the panic of its bounds check.
  unfoldable pub verify_meta : Bytes → Option Bool
  unfolding compute_meta_checksum
  verify_meta buf =
      if ltb (length buf) meta_payload_size
      then none
      else some (compute_meta_checksum buf == get_uint64 buf meta_off_checksum)

-- The errors of `ValidateMeta`.
pub data MetaError : Type 0 where
  bad_magic : ℕ → MetaError
  bad_version : ℕ → MetaError
  bad_page_size : ℕ → MetaError
  unknown_flags : ℕ → MetaError

-- `ValidateMeta`
pub validate_meta : Meta → Result MetaError (Unit {0})
validate_meta m = do
  guard (m.magic == page_magic) (bad_magic m.magic)
  guard (m.version == format_version) (bad_version m.version)
  guard (valid_page_size m.page_size) (bad_page_size m.page_size)
  guard (and_not m.flags meta_flag_known_mask == 0)
      (unknown_flags (and_not m.flags meta_flag_known_mask))

-- `pickHighestTxnID`; `none` is ok=false.
pub pick_highest_txn_id : ℕ → ℕ → Option ℕ
pick_highest_txn_id txn0 txn1 =
    if ltb txn0 txn1
    then some 1
    else if ltb txn1 txn0
    then some 0
    else if txn0 == 0
    then some 0
    else none

-- `ActiveMeta` behind its two calls of `VerifyMeta`
unfoldable pub active_of : Option Bool → Option Bool → Bytes → Bytes → Option (Option ℕ)
unfolding pick_highest_txn_id
active_of none ok1 meta0 meta1 = none
active_of (some ok0) none meta0 meta1 = none
active_of (some ok0) (some ok1) meta0 meta1 = some (
    if ok0 && ok1
    then pick_highest_txn_id (get_uint64 meta0 meta_off_txn_id) (get_uint64 meta1 meta_off_txn_id)
    else if ok0
    then some 0
    else if ok1
    then some 1
    else none)

-- `ActiveMeta`: `none` is a panic of `VerifyMeta`, and `some none` is ok=false.
unfoldable pub active_meta : (Bytes → ℕ) → Bytes → Bytes → Option (Option ℕ)
active_meta hash meta0 meta1 =
    active_of (verify_meta hash meta0) (verify_meta hash meta1) meta0 meta1
