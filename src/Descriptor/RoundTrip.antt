-- ===== src/Descriptor/RoundTrip.antt =====
-- The descriptor codec (internal/descriptor/descriptor.go).
use gmdb.Common.{
  ◌^◌, ◌≤◌, ◌<◌, List, [], ◌∷◌, ◌++◌, Bytes, some, length, length-append, length-drop, drop, ◌≡◌,
  refl, arith,
}
use gmdb.Common.Buffer.{
  le_bytes, from_le, put_all, concat, get_uint16, get_uint64, put_uint16, put_uint64, clear,
}
use gmdb.Common.Buffer.Laws.{from_le-le_bytes, put_all-concat}
use gmdb.Descriptor.{Keyspace, decode, read_fields, encode, write_fields, size}

-- The field images, in file order.
abbrev field_bytes : Keyspace → List Bytes
field_bytes d =
    le_bytes 8 d.root
    ∷ le_bytes 8 d.count
    ∷ (d.kind ∷ [])
    ∷ le_bytes 2 d.fixed_value_size
    ∷ le_bytes 8 d.next_seq
    ∷ le_bytes 2 d.restart_group_target
    ∷ le_bytes 8 d.index_registry_root
    ∷ (d.node_layouts ∷ [])
    ∷ (0 ∷ 0 ∷ [])
    ∷ []

-- The 40 bytes of a descriptor.
unfoldable pub image : Keyspace → Bytes
unfolding concat le_bytes
image d = concat (field_bytes d)

write_fields-image : (buf : Bytes) (d : Keyspace) → write_fields buf d ≡ image d ++ drop size buf
unfolding write_fields put_all put_uint16 put_uint64 clear le_bytes image
write_fields-image buf d = put_all-concat (field_bytes d) buf

-- The fields fit their widths.
pub record Fits (d : Keyspace) : Type 0 where
  pub root : d.root < 2 ^ 64
  pub count : d.count < 2 ^ 64
  pub kind : d.kind < 2 ^ 8
  pub fixed_value_size : d.fixed_value_size < 2 ^ 16
  pub next_seq : d.next_seq < 2 ^ 64
  pub restart_group_target : d.restart_group_target < 2 ^ 16
  pub index_registry_root : d.index_registry_root < 2 ^ 64
  pub node_layouts : d.node_layouts < 2 ^ 8

read_fields-image : (d : Keyspace) (rest : Bytes) → Fits d → read_fields (image d ++ rest) ≡ d
unfolding read_fields image get_uint16 get_uint64 from_le
read_fields-image d rest f = λ i. record {
  root = from_le-le_bytes 8 d.root f.root i;
  count = from_le-le_bytes 8 d.count f.count i;
  kind = d.kind;
  fixed_value_size = from_le-le_bytes 2 d.fixed_value_size f.fixed_value_size i;
  next_seq = from_le-le_bytes 8 d.next_seq f.next_seq i;
  restart_group_target = from_le-le_bytes 2 d.restart_group_target f.restart_group_target i;
  index_registry_root = from_le-le_bytes 8 d.index_registry_root f.index_registry_root i;
  node_layouts = d.node_layouts;
}

length-image : (d : Keyspace) → length (image d) ≡ size
unfolding image
length-image d = refl

encode-image :
    (buf : Bytes) (d : Keyspace)
    → size ≤ length buf
    → encode buf d ≡ some (image d ++ drop size buf)
unfolding encode
encode-image buf d h = ground (arith, write_fields-image buf d)

decode-image : (d : Keyspace) (rest : Bytes) → Fits d → decode (image d ++ rest) ≡ some d
unfolding decode
decode-image d rest f =
    ground (arith, length-append (image d) rest, length-image d, read_fields-image d rest f)

-- Encode writes into every buffer of 40 bytes or more an image that depends on the descriptor alone,
-- leaves the bytes behind it, and Decode reads the descriptor back from it, where the fields fit
-- their widths.
pub decode-encode :
    (buf : Bytes) (d : Keyspace)
    → size ≤ length buf
    → Fits d
    → (encode buf d ≡ some (image d ++ drop size buf))
      × (decode (image d ++ drop size buf) ≡ some d)
      × (length (image d ++ drop size buf) ≡ length buf)
decode-encode buf d h f = (
  encode-image buf d h,
  decode-image d (drop size buf) f,
  omega (arith, length-append (image d) (drop size buf), length-image d, length-drop size buf),
)
