-- ===== src/Page/Header/Footer.antt =====
-- The checksum footer of a page (internal/page/page.go, WritePageFooter, VerifyPageFooter).
use gmdb.Common.{
  ℕ, ◌+◌, ◌-◌, ◌^◌, ◌≤◌, ◌<◌, [], ◌++◌, true, Bytes, some, length, length-take, length-append, take,
  drop, append-nil, drop_all, take-append_at, drop-append_at, take_all, ◌≡◌, ap, arith, ==_self,
}
use gmdb.Common.Buffer.{le_bytes, put, get_uint64, put_uint64}
use gmdb.Common.Buffer.Laws.{from_le-le_bytes, length-le_bytes}
use gmdb.Page.Header.{compute_page_checksum, write_page_footer, verify_page_footer}

-- The page that WritePageFooter leaves.
pub sealed_page : (Bytes → ℕ) → Bytes → ℕ → Bytes
sealed_page hash buf page_size =
    take (page_size - 8) buf ++ le_bytes 8 (hash (take (page_size - 8) buf))

module _ (hash : Bytes → ℕ) (buf : Bytes) (page_size : ℕ) (size : length buf ≡ page_size)
    (room : 8 ≤ page_size) where
  length-content : length (take (page_size - 8) buf) ≡ page_size - 8
  length-content = omega (arith, length-take (page_size - 8) buf)

  length-sealed_page : length (sealed_page hash buf page_size) ≡ page_size
  unfolding sealed_page
  length-sealed_page = omega (
    arith,
    length-append (take (page_size - 8) buf) (le_bytes 8 (hash (take (page_size - 8) buf))),
    length-content,
    length-le_bytes 8 (hash (take (page_size - 8) buf)),
  )

  footer_written :
      put_uint64 buf (page_size - 8) (hash (take (page_size - 8) buf))
      ≡ sealed_page hash buf page_size
  unfolding put_uint64 put sealed_page
  footer_written =
      let c = hash (take (page_size - 8) buf) in
      let end : drop (page_size - 8 + length (le_bytes 8 c)) buf ≡ [] =
        drop_all _ buf (omega (arith, length-le_bytes 8 c)) in
      rw (end, append-nil)

  content-sealed_page :
      take (page_size - 8) (sealed_page hash buf page_size) ≡ take (page_size - 8) buf
  unfolding sealed_page
  content-sealed_page = take-append_at _ _ _ length-content

  footer-sealed_page :
      hash (take (page_size - 8) buf) < 2 ^ 64
      → get_uint64 (sealed_page hash buf page_size) (page_size - 8)
        ≡ hash (take (page_size - 8) buf)
  unfolding sealed_page get_uint64
  footer-sealed_page fits =
      let c = hash (take (page_size - 8) buf) in
      rw (drop-append_at (page_size - 8) _ (le_bytes 8 c) length-content) (
        rw (take_all 8 (le_bytes 8 c) (omega (arith, length-le_bytes 8 c)))
          (from_le-le_bytes 8 c fits))

  checksum_lem : compute_page_checksum hash buf page_size ≡ some (hash (take (page_size - 8) buf))
  unfolding compute_page_checksum
  checksum_lem = ground arith

-- WritePageFooter on a buffer of the page's size writes behind the content, which it keeps, its hash, and
-- VerifyPageFooter then accepts the page. The hash has 64 bits.
pub verify-write_page_footer :
    (hash : Bytes → ℕ) (buf : Bytes) (page_size : ℕ)
    → length buf ≡ page_size
    → 8 ≤ page_size
    → hash (take (page_size - 8) buf) < 2 ^ 64
    → (page : Bytes) × (write_page_footer hash buf page_size ≡ some page)
      × (length page ≡ page_size)
      × (take (page_size - 8) page ≡ take (page_size - 8) buf)
      × (verify_page_footer hash page page_size ≡ some true)
unfolding write_page_footer verify_page_footer
verify-write_page_footer hash buf page_size size room fits =
    let same = content-sealed_page hash buf page_size size room in
    let len = length-sealed_page hash buf page_size size room in
    (
      sealed_page hash buf page_size,
      rw (checksum_lem hash buf page_size size room)
          (ap some (footer_written hash buf page_size size room)),
      len,
      same,
      rw (
        checksum_lem hash (sealed_page hash buf page_size) page_size len room,
        same,
        footer-sealed_page hash buf page_size size room fits,
        ==_self,
      ),
    )
