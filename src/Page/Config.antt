-- ===== src/Page/Config.antt =====
-- internal/page/page.go: page types, the page configuration and the sizes that it fixes.
use gmdb.Common.{
  ℕ, ◌-◌, ◌/◌, Bool, false, Result, ok, err, Option, none, ◌>>◌, guard, ◌==◌, ◌||◌, leb, ltb,
  if◌then◌else◌, bit_and,
}

-- The page type constants.
abbrev pub type_branch : ℕ
type_branch = 1

abbrev pub type_leaf : ℕ
type_leaf = 2

abbrev pub type_overflow : ℕ
type_overflow = 3

abbrev pub type_rpl_segment : ℕ
type_rpl_segment = 4

abbrev pub type_leaf_uncompressed : ℕ
type_leaf_uncompressed = 5

abbrev pub type_leaf_segregated : ℕ
type_leaf_segregated = 6

abbrev pub type_branch_segregated : ℕ
type_branch_segregated = 7

-- `IsBranchType` and `IsLeafType`
pub is_branch_type : ℕ → Bool
is_branch_type typ = typ == type_branch || typ == type_branch_segregated

pub is_leaf_type : ℕ → Bool
is_leaf_type typ =
    typ == type_leaf || (typ == type_leaf_uncompressed || typ == type_leaf_segregated)

abbrev pub page_magic : ℕ
page_magic = 0x62646d67

abbrev pub format_version : ℕ
format_version = 4

abbrev pub min_page_size : ℕ
min_page_size = 4096

abbrev pub max_page_size : ℕ
max_page_size = 65536

abbrev pub header_size : ℕ
header_size = 8

abbrev pub footer_size : ℕ
footer_size = 8

-- `ValidPageSize`; behind the first test `size - 1` does not wrap around.
unfoldable pub valid_page_size : ℕ → Bool
valid_page_size size =
    if ltb size min_page_size || ltb max_page_size size then false else bit_and size (size - 1) == 0

abbrev pub default_restart_group_target : ℕ
default_restart_group_target = 6

abbrev pub max_restart_group_target : ℕ
max_restart_group_target = 255

-- `LeafLayout` and `BranchLayout` values: 0 is the default, 1 interleaved or plain, 2 segregated.
abbrev pub layout_first : ℕ
layout_first = 1

abbrev pub layout_segregated : ℕ
layout_segregated = 2

-- `LeafLayout.Valid` and `BranchLayout.Valid`
unfoldable pub valid_layout : ℕ → Bool
valid_layout l = leb l layout_segregated

-- `Config`
pub record Config : Type 0 where
  pub page_size : ℕ
  pub page_checksum : Bool
  pub restart_group_target : ℕ
  pub leaf_layout : ℕ
  pub branch_layout : ℕ

-- `EffectiveRestartGroupTarget`
pub effective_restart_group_target : Config → ℕ
effective_restart_group_target c =
    if c.restart_group_target == 0 then default_restart_group_target else c.restart_group_target

-- `EffectiveLeafType`
pub effective_leaf_type : Config → ℕ
unfolding effective_restart_group_target
effective_leaf_type c =
    if effective_restart_group_target c == 1
    then type_leaf_uncompressed
    else if c.leaf_layout == layout_first
    then type_leaf
    else type_leaf_segregated

-- `EffectiveBranchType`
pub effective_branch_type : Config → ℕ
effective_branch_type c =
    if c.branch_layout == layout_first then type_branch else type_branch_segregated

-- The errors of `Config.Validate`.
pub data ConfigError : Type 0 where
  bad_page_size : ℕ → ConfigError
  bad_restart_group_target : ℕ → ConfigError
  bad_leaf_layout : ℕ → ConfigError
  bad_branch_layout : ℕ → ConfigError

-- `Config.Validate`
unfoldable pub validate : Config → Result ConfigError (Unit {0})
unfolding valid_page_size valid_layout
validate c = do
  guard (valid_page_size c.page_size) (bad_page_size c.page_size)
  guard (leb c.restart_group_target max_restart_group_target)
      (bad_restart_group_target c.restart_group_target)
  guard (valid_layout c.leaf_layout) (bad_leaf_layout c.leaf_layout)
  guard (valid_layout c.branch_layout) (bad_branch_layout c.branch_layout)

-- `MustValidate`, in front of the code that follows: `none` is its panic.
unfoldable pub must_validate {ℓ} : {A : Type ℓ} → Config → Option A → Option A
unfolding validate
must_validate c next = elim (validate c) [ ok _ ↦ next | err _ ↦ none ]

-- `ContentEnd`; the page size of a valid configuration is above the footer's.
unfoldable pub content_end : Config → ℕ
content_end c = if c.page_checksum then c.page_size - footer_size else c.page_size

-- `UsableSpace`
pub usable_space : Config → ℕ
unfolding content_end
usable_space c = content_end c - header_size

-- `InlineThreshold`
pub inline_threshold : Config → ℕ
unfolding content_end
inline_threshold c = (content_end c - 68) / 2
