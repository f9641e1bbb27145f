-- ===== src/Descriptor/Layouts.antt =====
-- A stored descriptor against the page configuration it is applied to
-- (internal/descriptor/descriptor.go, Validate and ApplyToConfig; internal/page/page.go).
use gmdb.Common.{◌/◌, ◌≤◌, true, Bytes, ok, some, leb, ◌≡◌, refl, arith}
use gmdb.Common.Bits.{bit_and_mask}
use gmdb.Page.Config.{Config, valid_page_size, valid_layout}
use gmdb.Page
use gmdb.Descriptor.{
  Keyspace, leaf_layout_bits, branch_layout_bits, apply_to_config, checks, validate,
}

pub leaf_layout_bits-le : (d : Keyspace) → leaf_layout_bits d ≤ 3
unfolding leaf_layout_bits
leaf_layout_bits-le d = omega (arith, bit_and_mask 2 d.node_layouts)

pub branch_layout_bits-le : (d : Keyspace) → branch_layout_bits d ≤ 3
unfolding branch_layout_bits
branch_layout_bits-le d = omega (arith, bit_and_mask 2 (d.node_layouts / 4))

-- What an accepted descriptor says of the fields that are applied.
record Applicable (d : Keyspace) : Type 0 where
  target : d.restart_group_target ≤ 255
  leaf : leaf_layout_bits d ≤ 2
  branch : branch_layout_bits d ≤ 2

validate-Applicable : (buf : Bytes) (d : Keyspace) → validate buf d ≡ some (ok tt) → Applicable d
unfolding validate checks
validate-Applicable buf d h =
    let leaf_le = leaf_layout_bits-le d in
    let branch_le = branch_layout_bits-le d in
    record { target = ground arith; leaf = ground arith; branch = ground arith }

-- The same for a page configuration.
record Admissible (cfg : Config) : Type 0 where
  page_size : valid_page_size cfg.page_size ≡ true
  target : cfg.restart_group_target ≤ 255
  leaf : cfg.leaf_layout ≤ 2
  branch : cfg.branch_layout ≤ 2

Config-Admissible : (cfg : Config) → Page.Config.validate cfg ≡ ok tt → Admissible cfg
unfolding Page.Config.validate valid_layout
Config-Admissible cfg h = record {
  page_size = ground arith;
  target = ground arith;
  leaf = ground arith;
  branch = ground arith;
}

Admissible-validate : (cfg : Config) → Admissible cfg → Page.Config.validate cfg ≡ ok tt
unfolding Page.Config.validate valid_layout
Admissible-validate cfg a =
    let target : leb cfg.restart_group_target 255 ≡ true = ground (arith, a.target) in
    let leaf : leb cfg.leaf_layout 2 ≡ true = ground (arith, a.leaf) in
    let branch : leb cfg.branch_layout 2 ≡ true = ground (arith, a.branch) in
    rw (a.page_size, target, leaf, branch) refl

apply_to_config-Admissible :
    (d : Keyspace) (cfg : Config)
    → Applicable d
    → Admissible cfg
    → Admissible (apply_to_config d cfg)
unfolding apply_to_config
apply_to_config-Admissible d cfg p a = record {
  page_size = ground (arith, a.page_size);
  target = ground (arith, a.target, p.target);
  leaf = ground (arith, a.leaf, p.leaf);
  branch = ground (arith, a.branch, p.branch);
}

apply_to_config-kept :
    (d : Keyspace) (cfg : Config)
    → ((apply_to_config d cfg).page_size ≡ cfg.page_size)
      × ((apply_to_config d cfg).page_checksum ≡ cfg.page_checksum)
unfolding apply_to_config
apply_to_config-kept d cfg = (ground arith, ground arith)

-- A descriptor that Validate accepts, applied to a valid configuration, gives a valid configuration of
-- the same page size, with page checksums where they were on before.
pub validate-apply_to_config :
    (buf : Bytes) (d : Keyspace) (cfg : Config)
    → validate buf d ≡ some (ok tt)
    → Page.Config.validate cfg ≡ ok tt
    → (Page.Config.validate (apply_to_config d cfg) ≡ ok tt)
      × ((apply_to_config d cfg).page_size ≡ cfg.page_size)
      × ((apply_to_config d cfg).page_checksum ≡ cfg.page_checksum)
validate-apply_to_config buf d cfg h k =
    let (size, checksum) = apply_to_config-kept d cfg in
    let admissible =
      apply_to_config-Admissible d cfg (validate-Applicable buf d h) (Config-Admissible cfg k) in
    (Admissible-validate (apply_to_config d cfg) admissible, size, checksum)
