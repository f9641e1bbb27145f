-- ===== src/Tests/Pager.antt =====
-- internal/pager at concrete inputs; the hash is a constant, or counts bytes.
use gmdb.Common.{
  ℕ, ◌%◌, ◌^◌, ◌<◌, ◌++◌, true, false, Bytes, some, ◌≡◌, refl, arith, length, replicate, drop,
}
use gmdb.Common.Buffer.{get_uint64, from_le}
use gmdb.Pager.Meta.{
  DurableSubRecord, Meta, decode_meta, encode_meta, verify_meta, active_meta, compute_meta_checksum,
  meta_payload_size,
}
use gmdb.Pager.Meta.Image.{DurableFits, MetaFits}
use gmdb.Pager.Meta.RoundTrip.{meta_payload, sealed, decode_meta-encode_meta}
use gmdb.Pager.Meta.Selection.{commit_switch}

abbrev hash : Bytes → ℕ
hash bs = length bs % 2 ^ 64

hash_bound : (bs : Bytes) → hash bs < 2 ^ 64
hash_bound bs = omega arith

abbrev sub_record : DurableSubRecord
sub_record = record {
  txn_id = 3;
  anchored_txn_id = 4;
  high_water_mark = 5;
  rpl_head_page = 6;
  rpl_head_txn_id = 7;
  rpl_tail_page = 8;
  rpl_entry_count = 9;
  num_free_pages = 10;
  keyspace_root = 11;
  num_keyspaces = 12;
}

abbrev meta_at : ℕ → Meta
meta_at txn = record {
  magic = 0x62646d67;
  version = 4;
  page_size = 4096;
  flags = 1;
  bitmap_pages = 1;
  uuid = replicate 16 7;
  min_size = 4096;
  max_size = 8192;
  grow_step = 12288;
  shrink_threshold = 16384;
  high_water_mark = 20480;
  rpl_head_page = 24576;
  rpl_head_txn_id = 28672;
  rpl_tail_page = 32768;
  rpl_entry_count = 36864;
  num_free_pages = 40960;
  keyspace_root = 45056;
  num_keyspaces = 49152;
  txn_id = txn;
  durable = sub_record;
  checksum = 0;
}

sub_record-Fits : DurableFits sub_record
sub_record-Fits = record {
  txn_id = omega arith;
  anchored_txn_id = omega arith;
  high_water_mark = omega arith;
  rpl_head_page = omega arith;
  rpl_head_txn_id = omega arith;
  rpl_tail_page = omega arith;
  rpl_entry_count = omega arith;
  num_free_pages = omega arith;
  keyspace_root = omega arith;
  num_keyspaces = omega arith;
}

meta_at-Fits : (txn : ℕ) → txn < 2 ^ 64 → MetaFits (meta_at txn)
meta_at-Fits txn h = record {
  magic = omega arith;
  version = omega arith;
  page_size = omega arith;
  flags = omega arith;
  bitmap_pages = omega arith;
  uuid = refl;
  min_size = omega arith;
  max_size = omega arith;
  grow_step = omega arith;
  shrink_threshold = omega arith;
  high_water_mark = omega arith;
  rpl_head_page = omega arith;
  rpl_head_txn_id = omega arith;
  rpl_tail_page = omega arith;
  rpl_entry_count = omega arith;
  num_free_pages = omega arith;
  keyspace_root = omega arith;
  num_keyspaces = omega arith;
  txn_id = h;
  durable = sub_record-Fits;
}

abbrev torn : Bytes
torn = replicate 232 1

torn_fails : verify_meta hash torn ≡ some false
unfolding verify_meta compute_meta_checksum get_uint64 from_le
torn_fails = refl

decode_meta-encode_meta_example :
    (encode_meta hash (replicate 240 9) (meta_at 5)
      ≡ some (
        meta_payload hash (meta_at 5) ++ drop meta_payload_size (replicate 240 9),
        sealed hash (meta_at 5),
      ))
    × (decode_meta (meta_payload hash (meta_at 5) ++ drop meta_payload_size (replicate 240 9))
        ≡ some (sealed hash (meta_at 5)))
    × (verify_meta hash (meta_payload hash (meta_at 5) ++ drop meta_payload_size (replicate 240 9))
        ≡ some true)
decode_meta-encode_meta_example =
    decode_meta-encode_meta hash hash_bound (replicate 240 9) (meta_at 5) (omega arith)
      (meta_at-Fits 5 (omega arith))

-- The images of transactions 5 and 6.
abbrev image_of : ℕ → Bytes
image_of txn = meta_payload hash (meta_at txn) ++ drop meta_payload_size (replicate 240 9)

encoded :
    (txn : ℕ)
    → txn < 2 ^ 64
    → encode_meta hash (replicate 240 9) (meta_at txn)
      ≡ some (image_of txn, sealed hash (meta_at txn))
encoded txn h =
    (decode_meta-encode_meta hash hash_bound (replicate 240 9) (meta_at txn) (omega arith)
      (meta_at-Fits txn h)).0

commit_switch_example :
    (active_meta hash (image_of 5) torn ≡ some (some 0))
    × (active_meta hash (image_of 5) (image_of 6) ≡ some (some 1))
    × (active_meta hash torn (image_of 5) ≡ some (some 1))
    × (active_meta hash (image_of 6) (image_of 5) ≡ some (some 0))
commit_switch_example =
    commit_switch hash hash_bound (replicate 240 9) (replicate 240 9) (meta_at 5) (meta_at 6)
      (sealed hash (meta_at 5)) (sealed hash (meta_at 6)) (image_of 5) (image_of 6) torn
      (omega arith) (omega arith) (meta_at-Fits 5 (omega arith)) (meta_at-Fits 6 (omega arith))
      (omega arith) (encoded 5 (omega arith)) (encoded 6 (omega arith)) torn_fails
