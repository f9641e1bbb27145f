-- ===== src/Page/Overflow/RoundTrip.antt =====
-- A value written as an overflow run and read back (internal/page/overflow.go, WriteOverflowRun,
-- VerifyOverflowRun, OverflowRunExtent, DecodeOverflowFirstPage).
use gmdb.Common.{
  ℕ, zero, suc, ◌+◌, ◌-◌, ◌*◌, ◌^◌, ◌≤◌, ◌<◌, [], ◌++◌, true, Bytes, ok, some, length, take, drop,
  length-append, length-take, length-drop, take-append-drop, append_assoc, drop-append_at,
  if◌then◌else◌, ◌>>=◌, ◌≡◌, sym, ap, arith, ◌∙◌,
}
use gmdb.Common.Buffer.{put, le_bytes}
use gmdb.Common.Buffer.Laws.{put-append}
use gmdb.Page
use gmdb.Page.Config.{Config, type_overflow}
use gmdb.Page.Overflow.{
  head_content_start, head_page, set_overflow_run_digest, write_followers, write_head,
  write_overflow_run, overflow_run_length, overflow_run_length64, first_page_capacity,
  follower_capacity, decode_overflow_first_page, overflow_run_digest, stored_overflow_run_digest,
  verify_overflow_run, overflow_run_extent,
}
use gmdb.Page.Overflow.Image.{
  pad, pad-add, length-pad, take-pad, write_at_page, write_followers-pad,
}
use gmdb.Page.Overflow.Length.{capacities, run_length64-Bounds, run_length_agrees}
use gmdb.Page.Overflow.Head.{
  content_of, decode_of, digest_bytes, extent_of, gap_of, head_of, header_bytes, length-digest_of,
  run_image, sealed_of, verify_of,
}

one_page_less : (run page_size : ℕ) → 1 ≤ run → run * page_size ≡ page_size + (run - 1) * page_size
one_page_less zero page_size h = absurd (omega arith)
one_page_less (suc run) page_size h =
    let less : suc run - 1 ≡ run = omega arith in rw less (omega arith)

module _ (hash : Bytes → ℕ) (cfg : Config) (value : Bytes) (run : ℕ)
    (large : 4096 ≤ cfg.page_size) where
  followers_capacity : ℕ
  followers_capacity = (run - 1) * cfg.page_size

  payload : Bytes
  unfolding followers_capacity
  payload = pad (first_page_capacity cfg + followers_capacity) value

  tail_pages : Bytes
  unfolding followers_capacity
  tail_pages = pad followers_capacity (drop (first_page_capacity cfg) value)

  payload-tail_pages : pad (first_page_capacity cfg) value ++ tail_pages ≡ payload
  unfolding payload tail_pages
  payload-tail_pages = sym (pad-add (first_page_capacity cfg) followers_capacity value)

  sealed : Bytes
  unfolding digest_bytes
  sealed =
      header_bytes run ++ (digest_bytes cfg (hash payload) ++ pad (first_page_capacity cfg) value)

  head_page-image :
      head_page cfg value run
      ≡ header_bytes run ++ (gap_of cfg.page_checksum ++ pad (first_page_capacity cfg) value)
  unfolding head_page first_page_capacity head_content_start
  head_page-image = head_of cfg.page_checksum cfg.page_size run value (omega arith)

  drop-head_page :
      drop (head_content_start cfg) (head_page cfg value run) ≡ pad (first_page_capacity cfg) value
  unfolding head_content_start
  drop-head_page =
      rw head_page-image (content_of cfg.page_checksum run (pad (first_page_capacity cfg) value))

  length-sealed : length sealed ≡ cfg.page_size
  unfolding sealed digest_bytes first_page_capacity head_content_start header_bytes le_bytes
  length-sealed =
      let digest = if cfg.page_checksum then le_bytes 8 (hash payload) else [] in
      let body = pad (first_page_capacity cfg) value in
      let start = length-digest_of cfg.page_checksum (hash payload) in
      ground (arith, start, length-append digest body, length-pad (first_page_capacity cfg) value)

  sealed-append : sealed ++ tail_pages ≡ run_image cfg (hash payload) run payload
  unfolding sealed run_image
  sealed-append = rw (
    append_assoc (header_bytes run),
    append_assoc (digest_bytes cfg (hash payload)),
    payload-tail_pages,
  )

  length-run_image :
      length (run_image cfg (hash payload) run payload) ≡ cfg.page_size + (run - 1) * cfg.page_size
  unfolding tail_pages followers_capacity
  length-run_image =
      ap (λ (t : Bytes). length t) (sym sealed-append)
      ∙ omega (
        arith,
        length-append sealed tail_pages,
        length-sealed,
        length-pad ((run - 1) * cfg.page_size) (drop (first_page_capacity cfg) value),
      )

  write_head-sealed :
      (front : Bytes)
      → length front ≡ cfg.page_size
      → write_head
          (write_at_page cfg.page_size)
          hash
          cfg
          (head_page cfg value run)
          (front ++ tail_pages, payload)
        ≡ ok (run_image cfg (hash payload) run payload)
  unfolding write_head write_at_page set_overflow_run_digest sealed digest_bytes
  write_head-sealed front e =
      let digest_set =
        sealed_of cfg.page_checksum (hash payload) run (pad (first_page_capacity cfg) value) in
      let first : 0 * cfg.page_size ≡ 0 = omega arith in
      let copied : put 0 sealed (front ++ tail_pages) ≡ sealed ++ tail_pages =
        put-append [] (front ++ tail_pages) sealed
        ∙ ap (λ (t : Bytes). sealed ++ t)
            (drop-append_at (length sealed) front tail_pages (omega (arith, length-sealed))) in
      rw (head_page-image, digest_set, first) (ap ok (copied ∙ sealed-append))

  followers_written :
      (region : Bytes)
      → 1 ≤ run
      → length region ≡ run * cfg.page_size
      → write_followers
          (write_at_page cfg.page_size)
          cfg.page_size
          (run - 1)
          1
          (drop (first_page_capacity cfg) value)
          (pad (first_page_capacity cfg) value)
          region
        ≡ ok (take cfg.page_size region ++ tail_pages, payload)
  unfolding tail_pages followers_capacity
  followers_written region h size =
      let front = take cfg.page_size region in
      let back = drop cfg.page_size region in
      let pages : run * cfg.page_size ≡ cfg.page_size + (run - 1) * cfg.page_size =
        one_page_less run cfg.page_size h in
      let front_size : length front ≡ 1 * cfg.page_size =
        omega (arith, length-take cfg.page_size region) in
      let back_size : length back ≡ (run - 1) * cfg.page_size =
        omega (arith, length-drop cfg.page_size region) in
      let looped =
        write_followers-pad cfg.page_size (run - 1) 1 (drop (first_page_capacity cfg) value)
          (pad (first_page_capacity cfg) value) front back front_size back_size in
      rw (take-append-drop, payload-tail_pages) at looped

  -- `WriteOverflowRun` behind its head, for a run of `run` pages.
  run_written :
      (region : Bytes)
      → 1 ≤ run
      → length region ≡ run * cfg.page_size
      → (write_followers
            (write_at_page cfg.page_size)
            cfg.page_size
            (run - 1)
            1
            (drop (first_page_capacity cfg) value)
            (drop (head_content_start cfg) (head_page cfg value run))
            region
          >>= write_head (write_at_page cfg.page_size) hash cfg (head_page cfg value run))
        ≡ ok (run_image cfg (hash payload) run payload)
  run_written region h size =
      let room = one_page_less run cfg.page_size h in
      rw (drop-head_page, followers_written region h size)
        (write_head-sealed (take cfg.page_size region)
          (omega (arith, length-take cfg.page_size region)))

-- WriteOverflowRun into a region of the run's pages succeeds and keeps the region's size. The extent of the
-- run then starts with the value, the run's digest is accepted, and the head's additional pages are the
-- run's length less 1. The configuration is valid, the uint64 sum does not wrap around, 32 bits hold the
-- run's length and 64 bits the hash.
pub overflow_run_round_trip :
    (hash : Bytes → ℕ) (cfg : Config) (value region : Bytes)
    → Page.Config.validate cfg ≡ ok tt
    → ((bs : Bytes) → hash bs < 2 ^ 64)
    → length value + follower_capacity cfg ≤ 2 ^ 64 + first_page_capacity cfg
    → overflow_run_length64 cfg (length value) < 2 ^ 32
    → length region ≡ overflow_run_length cfg (length value) * cfg.page_size
    → (out : Bytes) × (write_overflow_run (write_at_page cfg.page_size) hash cfg value region
        ≡ ok out)
      × (length out ≡ length region)
      × (take (length value) (overflow_run_extent out cfg) ≡ value)
      × (verify_overflow_run hash out cfg ≡ true)
      × (decode_overflow_first_page out ≡ some (ok (overflow_run_length cfg (length value) - 1)))
unfolding write_overflow_run overflow_run_extent verify_overflow_run overflow_run_digest
    stored_overflow_run_digest first_page_capacity head_content_start run_image payload
    followers_capacity digest_bytes
overflow_run_round_trip hash cfg value region v fits room few size =
    let (large, _, _, _) = capacities cfg v in
    let (pos, covered, _) = run_length64-Bounds cfg (length value) v room in
    let run = overflow_run_length cfg (length value) in
    let same : run ≡ overflow_run_length64 cfg (length value) =
      omega (arith, run_length_agrees cfg (length value)) in
    let one : 1 ≤ run = omega arith in
    let pages = one_page_less run cfg.page_size one in
    let holds : length value ≤ first_page_capacity cfg + (run - 1) * cfg.page_size =
      rw same covered in
    let bytes = payload hash cfg value run large in
    let extent = extent_of cfg.page_checksum (hash bytes) run bytes in
    (
      run_image cfg (hash bytes) run bytes,
      run_written hash cfg value run large region one size,
      length-run_image hash cfg value run large ∙ omega (arith, size, pages),
      rw extent (take-pad _ value holds),
      verify_of cfg.page_checksum hash run bytes (fits bytes),
      decode_of run _ one (omega arith),
    )
