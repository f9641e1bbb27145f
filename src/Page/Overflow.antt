-- ===== src/Page/Overflow.antt =====
-- internal/page/overflow.go: overflow runs, a head page and its followers. The configuration is valid
-- (MustValidate panics on another). XXH3-64 is the parameter `hash`: the streamed digest is that of the
-- bytes written to the hasher, one behind the other. The callback `write` acts on a state.
pub mod Length
pub mod Image
pub mod Head
pub mod RoundTrip
use gmdb.Common.{
  ℕ, zero, suc, ◌+◌, ◌-◌, ◌/◌, ◌%◌, ◌^◌, [], ◌∷◌, ◌++◌, Bool, true, Bytes, Option, none, some,
  Result, ok, err, leb, ◌==◌, not, if◌then◌else◌, length, take, drop, replicate, ◌>>=◌,
}
use gmdb.Common.Buffer.{get_uint64, put, put_uint64}
use gmdb.Page.Config.{Config, header_size, type_overflow}
use gmdb.Page.Header.{Header, read_header, put_header}

-- `OverflowDigestSize` and `overflowDigestOff`
abbrev pub overflow_digest_size : ℕ
overflow_digest_size = 8

abbrev pub overflow_digest_off : ℕ
overflow_digest_off = 8

-- `OverflowHeadContentStart`
unfoldable pub head_content_start : Config → ℕ
head_content_start cfg =
    if cfg.page_checksum then header_size + overflow_digest_size else header_size

-- `OverflowFirstPageCapacity`; a valid page is larger than its head's start.
unfoldable pub first_page_capacity : Config → ℕ
unfolding head_content_start
first_page_capacity cfg = cfg.page_size - head_content_start cfg

-- `OverflowFollowerCapacity`
unfoldable pub follower_capacity : Config → ℕ
follower_capacity cfg = cfg.page_size

-- `OverflowRunLength64`; the sums are uint64.
unfoldable pub overflow_run_length64 : Config → ℕ → ℕ
unfolding first_page_capacity follower_capacity
overflow_run_length64 cfg val_len =
    let first = first_page_capacity cfg in
    let follower = follower_capacity cfg in
    if leb val_len first
    then 1
    else (1 + (val_len - first + follower - 1) % 2 ^ 64 / follower) % 2 ^ 64

-- `OverflowRunLength`, whose result is a uint32.
unfoldable pub overflow_run_length : Config → ℕ → ℕ
unfolding first_page_capacity follower_capacity
overflow_run_length cfg val_len =
    let first = first_page_capacity cfg in
    let follower = follower_capacity cfg in
    if leb val_len first
    then 1
    else (1 + (val_len - first + follower - 1) % 2 ^ 64 / follower % 2 ^ 32) % 2 ^ 32

-- A page cleared, with the front of `rest` copied into it.
unfoldable pub follower_page : ℕ → Bytes → Bytes
follower_page page_size rest =
    let chunk = take page_size rest in chunk ++ replicate (page_size - length chunk) 0

-- The head of `WriteOverflowRun` before the digest is set.
unfoldable pub head_page : Config → Bytes → ℕ → Bytes
unfolding head_content_start put_header
head_page cfg value run_len =
    let start = head_content_start cfg in
    put start (take (cfg.page_size - start) value)
      (put_header (replicate cfg.page_size 0) type_overflow 0 (run_len - 1))

-- `SetOverflowRunDigest`
unfoldable pub set_overflow_run_digest : Bytes → ℕ → Bytes
set_overflow_run_digest head digest = put_uint64 head overflow_digest_off digest

module _ {E S : Type 0} (write : S → ℕ → Bytes → Result E S) where
  -- The loop of `WriteOverflowRun`: `n` followers from index `i` on, with the bytes of the value that
  -- are left, the bytes that the hasher has seen and the state.
  pub write_followers : ℕ → ℕ → ℕ → Bytes → Bytes → S → Result E (S × Bytes)
  unfolding follower_page
  write_followers page_size zero i rest streamed s = ok (s, streamed)
  write_followers page_size (suc n) i rest streamed s =
      let buf = follower_page page_size rest in
      write s i buf >>= λ t.
      write_followers page_size n (i + 1) (drop page_size rest) (streamed ++ buf) t

  -- The end of `WriteOverflowRun`: the digest, and the head's write.
  pub write_head : (Bytes → ℕ) → Config → Bytes → S × Bytes → Result E S
  unfolding set_overflow_run_digest
  write_head hash cfg head (s, streamed) =
      write s 0 (if cfg.page_checksum then set_overflow_run_digest head (hash streamed) else head)

  -- `WriteOverflowRun`
  pub write_overflow_run : (Bytes → ℕ) → Config → Bytes → S → Result E S
  unfolding write_followers write_head head_page head_content_start overflow_run_length
  write_overflow_run hash cfg value s =
      let run_len = overflow_run_length cfg (length value) in
      let head = head_page cfg value run_len in
      let start = head_content_start cfg in
      write_followers cfg.page_size (run_len - 1) 1 (drop (cfg.page_size - start) value)
        (drop start head) s
      >>= write_head hash cfg head

-- The type test of `DecodeOverflowFirstPage`.
additional_of : Header → Result ℕ ℕ
additional_of h = if not (h.typ == type_overflow) then err h.typ else ok h.additional

-- `DecodeOverflowFirstPage`: a panic, the type that is not an overflow page's, or AdditionalPages.
unfoldable pub decode_overflow_first_page : Bytes → Option (Result ℕ ℕ)
unfolding additional_of read_header
decode_overflow_first_page buf = elim (read_header buf) [
  | none ↦ none
  | some h ↦ some (additional_of h)
]

-- `OverflowRunDigest`, `StoredOverflowRunDigest` and `VerifyOverflowRun`
unfoldable pub overflow_run_digest : (Bytes → ℕ) → Bytes → Config → ℕ
unfolding head_content_start
overflow_run_digest hash run cfg = hash (drop (head_content_start cfg) run)

unfoldable pub stored_overflow_run_digest : Bytes → ℕ
stored_overflow_run_digest head = get_uint64 head overflow_digest_off

unfoldable pub verify_overflow_run : (Bytes → ℕ) → Bytes → Config → Bool
unfolding overflow_run_digest stored_overflow_run_digest
verify_overflow_run hash run cfg =
    if not cfg.page_checksum
    then true
    else overflow_run_digest hash run cfg == stored_overflow_run_digest run

-- `OverflowRunExtent`
unfoldable pub overflow_run_extent : Bytes → Config → Bytes
unfolding head_content_start
overflow_run_extent run cfg = drop (head_content_start cfg) run
