-- ===== src/Page/Header.antt =====
-- internal/page/page.go: the 8-byte page header and the checksum footer. XXH3-64 is the parameter
-- `hash`. `none` is a panic.
pub mod Footer
use gmdb.Common.{
  ℕ, ◌-◌, [], ◌∷◌, Bool, Bytes, Option, none, some, ltb, ◌==◌, if◌then◌else◌, length, take, get_or,
  ◌||◌, not,
}
use gmdb.Common.Buffer.{get_uint16, get_uint32, get_uint64, put, put_uint16, put_uint32, put_uint64}
use gmdb.Page.Config.{header_size, footer_size}
use mathlib.Core.Option

-- The results of `ReadHeader`.
pub record Header : Type 0 where
  pub typ : ℕ
  pub flags : ℕ
  pub count : ℕ
  pub additional : ℕ

-- `ReadHeader`
unfoldable pub read_header : Bytes → Option Header
read_header buf =
    if ltb (length buf) header_size
    then none
    else some (record {
      typ = get_or buf 0 0;
      flags = get_or buf 1 0;
      count = get_uint16 buf 2;
      additional = get_uint32 buf 4;
    })

-- The writes of `WriteHeader`.
unfoldable pub put_header : Bytes → ℕ → ℕ → ℕ → Bytes
put_header buf typ count additional =
    let buf = put 0 (typ ∷ []) buf in
    let buf = put 1 (0 ∷ []) buf in let buf = put_uint16 buf 2 count in put_uint32 buf 4 additional

-- `WriteHeader`
unfoldable pub write_header : Bytes → ℕ → ℕ → ℕ → Option Bytes
unfolding put_header
write_header buf typ count additional =
    if ltb (length buf) header_size then none else some (put_header buf typ count additional)

-- `ComputePageChecksum`; a page size below the footer's makes the slice panic.
unfoldable pub compute_page_checksum : (Bytes → ℕ) → Bytes → ℕ → Option ℕ
compute_page_checksum hash buf page_size =
    if not (length buf == page_size) || ltb page_size footer_size
    then none
    else some (hash (take (page_size - footer_size) buf))

-- `WritePageFooter`
unfoldable pub write_page_footer : (Bytes → ℕ) → Bytes → ℕ → Option Bytes
unfolding compute_page_checksum
write_page_footer hash buf page_size =
    Option.map (λ c. put_uint64 buf (page_size - footer_size) c)
      (compute_page_checksum hash buf page_size)

-- `VerifyPageFooter`
unfoldable pub verify_page_footer : (Bytes → ℕ) → Bytes → ℕ → Option Bool
unfolding compute_page_checksum
verify_page_footer hash buf page_size =
    Option.map (λ want. want == get_uint64 buf (page_size - footer_size))
      (compute_page_checksum hash buf page_size)
