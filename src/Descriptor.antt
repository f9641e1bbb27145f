-- ===== src/Descriptor.antt =====
-- internal/descriptor/descriptor.go: the 40-byte on-disk form of a keyspace descriptor.
pub mod RoundTrip
pub mod Layouts
use gmdb.Common.{
  ℕ, ◌+◌, ◌/◌, ◌%◌, List, [], ◌∷◌, Bool, true, false, Bytes, Result, ok, err, ◌>>◌, guard, ◌==◌,
  ◌&&◌, ◌||◌, not, leb, ltb, if◌then◌else◌, Option, none, some, length, get_or, bit_and,
}
use gmdb.Common.Buffer.{get_uint16, get_uint64, put, put_uint16, put_uint64, clear}
use gmdb.Page.Config.{Config, max_restart_group_target}

-- `Keyspace`
pub record Keyspace : Type 0 where
  pub root : ℕ
  pub count : ℕ
  pub kind : ℕ
  pub fixed_value_size : ℕ
  pub next_seq : ℕ
  pub restart_group_target : ℕ
  pub index_registry_root : ℕ
  pub node_layouts : ℕ

-- `KindKeyspace`, `KindSetKeyspace` and `KindIndexInternal`
abbrev pub kind_keyspace : ℕ
kind_keyspace = 0

abbrev pub kind_set_keyspace : ℕ
kind_set_keyspace = 1

abbrev pub kind_index_internal : ℕ
kind_index_internal = 2

-- `Size`
abbrev pub size : ℕ
size = 40

-- `LeafLayoutBits` and `BranchLayoutBits`
unfoldable pub leaf_layout_bits : Keyspace → ℕ
leaf_layout_bits d = bit_and d.node_layouts 3

unfoldable pub branch_layout_bits : Keyspace → ℕ
branch_layout_bits d = bit_and (d.node_layouts / 4) 3

-- `ApplyToConfig`
pub apply_to_config : Keyspace → Config → Config
apply_to_config d cfg =
    let target =
      if not (d.restart_group_target == 0)
      then record cfg { restart_group_target = d.restart_group_target }
      else cfg in
    let leaf = leaf_layout_bits d in
    let with_leaf = if not (leaf == 0) then record target { leaf_layout = leaf } else target in
    let branch = branch_layout_bits d in
    if not (branch == 0) then record with_leaf { branch_layout = branch } else with_leaf

-- The reads of `Decode`.
pub read_fields : Bytes → Keyspace
read_fields buf = record {
  root = get_uint64 buf 0;
  count = get_uint64 buf 8;
  kind = get_or buf 16 0;
  fixed_value_size = get_uint16 buf 17;
  next_seq = get_uint64 buf 19;
  restart_group_target = get_uint16 buf 27;
  index_registry_root = get_uint64 buf 29;
  node_layouts = get_or buf 37 0;
}

-- `Decode`; `none` is the panic of its bounds check.
pub decode : Bytes → Option Keyspace
unfolding read_fields
decode buf = if ltb (length buf) size then none else some (read_fields buf)

-- The writes of `Encode`.
pub write_fields : Bytes → Keyspace → Bytes
write_fields buf d =
    let buf = put_uint64 buf 0 d.root in
    let buf = put_uint64 buf 8 d.count in
    let buf = put 16 (d.kind ∷ []) buf in
    let buf = put_uint16 buf 17 d.fixed_value_size in
    let buf = put_uint64 buf 19 d.next_seq in
    let buf = put_uint16 buf 27 d.restart_group_target in
    let buf = put_uint64 buf 29 d.index_registry_root in
    let buf = put 37 (d.node_layouts ∷ []) buf in clear buf 38 2

-- `Encode`; `none` is the panic of its bounds check.
pub encode : Bytes → Keyspace → Option Bytes
unfolding write_fields
encode buf d = if ltb (length buf) size then none else some (write_fields buf d)

-- The errors of `Validate`.
pub data Error : Type 0 where
  bad_kind : ℕ → Error
  fixed_value_size_set : ℕ → ℕ → Error
  target_too_large : ℕ → Error
  bad_node_layouts : ℕ → Error
  reserved_byte : ℕ → ℕ → Error

-- The loop of `Validate` over the two reserved bytes.
unfoldable pub check_reserved : Bytes → Result Error (Unit {0})
check_reserved buf = do
  guard (get_or buf 38 0 == 0) (reserved_byte 0 (get_or buf 38 0))
  guard (get_or buf 39 0 == 0) (reserved_byte 1 (get_or buf 39 0))

-- `Validate` behind its bounds check
unfoldable pub checks : Bytes → Keyspace → Result Error (Unit {0})
unfolding leaf_layout_bits branch_layout_bits check_reserved
checks buf d = do
  guard (d.kind == kind_keyspace || (d.kind == kind_set_keyspace || d.kind == kind_index_internal))
      (bad_kind d.kind)
  guard (not (not (d.fixed_value_size == 0) && not (d.kind == kind_set_keyspace)))
      (fixed_value_size_set d.fixed_value_size d.kind)
  guard (leb d.restart_group_target max_restart_group_target)
      (target_too_large d.restart_group_target)
  guard
      (not (
        leaf_layout_bits d == 3
        || (branch_layout_bits d == 3 || not (bit_and d.node_layouts 0xf0 == 0))))
      (bad_node_layouts d.node_layouts)
  check_reserved buf

-- `Validate`; `none` is the panic of its bounds check.
unfoldable pub validate : Bytes → Keyspace → Option (Result Error (Unit {0}))
validate buf d = if ltb (length buf) size then none else some (checks buf d)
