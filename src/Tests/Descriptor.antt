-- ===== src/Tests/Descriptor.antt =====
-- internal/descriptor at concrete inputs.
use gmdb.Common.{◌++◌, Bytes, some, true, ok, ◌≡◌, refl, arith, length, replicate, drop}
use gmdb.Page
use gmdb.Page.Config.{Config}
use gmdb.Descriptor.{
  Keyspace, decode, encode, size, validate, apply_to_config, leaf_layout_bits, branch_layout_bits,
  check_reserved,
}
use gmdb.Descriptor.Layouts.{validate-apply_to_config}
use gmdb.Descriptor.RoundTrip.{image, Fits, decode-encode}

abbrev users : Keyspace
users = record {
  root = 300;
  count = 70000;
  kind = 1;
  fixed_value_size = 16;
  next_seq = 9;
  restart_group_target = 6;
  index_registry_root = 12;
  node_layouts = 5;
}

abbrev users-Fits : Fits users
users-Fits = record {
  root = omega arith;
  count = omega arith;
  kind = omega arith;
  fixed_value_size = omega arith;
  next_seq = omega arith;
  restart_group_target = omega arith;
  index_registry_root = omega arith;
  node_layouts = omega arith;
}

abbrev buffer : Bytes
buffer = replicate 42 255

decode-encode_example :
    (encode buffer users ≡ some (image users ++ drop size buffer))
    × (decode (image users ++ drop size buffer) ≡ some users)
    × (length (image users ++ drop size buffer) ≡ length buffer)
decode-encode_example = decode-encode buffer users (omega arith) users-Fits

users-accepted : validate (replicate 40 0) users ≡ some (ok tt)
unfolding validate gmdb.Descriptor.checks leaf_layout_bits branch_layout_bits check_reserved
users-accepted = refl

abbrev pages : Config
pages = record {
  page_size = 4096;
  page_checksum = true;
  restart_group_target = 0;
  leaf_layout = 0;
  branch_layout = 0;
}

pages-accepted : Page.Config.validate pages ≡ ok tt
unfolding Page.Config.validate Page.Config.valid_page_size Page.Config.valid_layout
pages-accepted = refl

validate-apply_to_config_example :
    (Page.Config.validate (apply_to_config users pages) ≡ ok tt)
    × ((apply_to_config users pages).page_size ≡ 4096)
    × ((apply_to_config users pages).page_checksum ≡ true)
validate-apply_to_config_example =
    validate-apply_to_config (replicate 40 0) users pages users-accepted pages-accepted
