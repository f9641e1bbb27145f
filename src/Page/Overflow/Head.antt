-- ===== src/Page/Overflow/Head.antt =====
-- The head of an overflow run, its bytes and reads from them (internal/page/overflow.go).
use gmdb.Common.{
  ℕ, suc, ◌+◌, ◌-◌, ◌^◌, ◌≤◌, ◌<◌, [], ◌∷◌, ◌++◌, Bool, true, false, not, Bytes, ok, some, length,
  take, drop, replicate, append_assoc, if◌then◌else◌, ltb, ◌==◌, ==_self, ◌≡◌, refl, ap, arith, ◌∙◌,
}
use gmdb.Common.Buffer.{
  put, le_bytes, from_le, get_uint16, get_uint32, get_uint64, put_uint16, put_uint32, put_uint64,
}
use gmdb.Common.Buffer.Laws.{drop-replicate, put-append, from_le-le_bytes}
use gmdb.Page.Config.{Config, type_overflow}
use gmdb.Page.Header.{read_header, put_header}
use gmdb.Page.Overflow.{additional_of, decode_overflow_first_page}
use gmdb.Page.Overflow.Image.{pad, pad-lem}

-- The first eight bytes of the head.
unfoldable pub header_bytes : ℕ → Bytes
unfolding le_bytes
header_bytes run = type_overflow ∷ 0 ∷ 0 ∷ 0 ∷ le_bytes 4 (run - 1)

-- The digest's bytes, where the configuration has them.
unfoldable pub digest_bytes : Config → ℕ → Bytes
digest_bytes cfg digest = if cfg.page_checksum then le_bytes 8 digest else []

put_header-zeros :
    (n run : ℕ)
    → put_header (replicate (8 + n) 0) type_overflow 0 (run - 1) ≡ header_bytes run ++ replicate n 0
unfolding put_header put_uint16 put_uint32 put le_bytes header_bytes
put_header-zeros n run =
    let eight : 8 + n ≡ suc (suc (suc (suc (suc (suc (suc (suc n))))))) = omega arith in rw eight

-- The front of a value copied over zeros.
put-zeros :
    (front : Bytes) (at n : ℕ) (value : Bytes)
    → length front ≡ at
    → put at (take n value) (front ++ replicate n 0) ≡ front ++ pad n value
put-zeros front at n value e = rw (← e) (
    put-append front (replicate n 0) (take n value)
    ∙ rw (drop-replicate (length (take n value)) n, append_assoc front, pad-lem n value))

abbrev pub start_of : Bool → ℕ
start_of checksum = if checksum then 16 else 8

unfoldable pub gap_of : Bool → Bytes
gap_of checksum = if checksum then replicate 8 0 else []

pub head_of :
    (checksum : Bool) (page_size run : ℕ) (value : Bytes)
    → 16 ≤ page_size
    → put
        (start_of checksum)
        (take (page_size - start_of checksum) value)
        (put_header (replicate page_size 0) type_overflow 0 (run - 1))
      ≡ header_bytes run ++ (gap_of checksum ++ pad (page_size - start_of checksum) value)
unfolding header_bytes gap_of
head_of true page_size run value h =
    let n = page_size - 16 in
    let size : page_size ≡ 8 + (8 + n) = omega arith in
    let eight : 8 + n ≡ suc (suc (suc (suc (suc (suc (suc (suc n))))))) = omega arith in
    ap (λ (m : ℕ). put 16 (take n value) (put_header (replicate m 0) type_overflow 0 (run - 1)))
      size
    ∙ rw (put_header-zeros (8 + n) run, eight)
        (put-zeros (header_bytes run ++ replicate 8 0) 16 n value refl)
head_of false page_size run value h =
    let n = page_size - 8 in
    let size : page_size ≡ 8 + n = omega arith in
    ap (λ (m : ℕ). put 8 (take n value) (put_header (replicate m 0) type_overflow 0 (run - 1))) size
    ∙ rw (put_header-zeros n run) (put-zeros (header_bytes run) 8 n value refl)

-- The head's image, its digest set where it has one.
pub sealed_of :
    (checksum : Bool) (digest run : ℕ) (body : Bytes)
    → (if checksum
        then put_uint64 (header_bytes run ++ (gap_of checksum ++ body)) 8 digest
        else header_bytes run ++ (gap_of checksum ++ body))
      ≡ header_bytes run ++ ((if checksum then le_bytes 8 digest else []) ++ body)
unfolding gap_of put_uint64 le_bytes header_bytes
sealed_of true digest run body =
    put-append (header_bytes run) (replicate 8 0 ++ body) (le_bytes 8 digest)
sealed_of false digest run body = refl

-- A run's bytes: the header, the digest where there is one, and the payload.
unfoldable pub run_image : Config → ℕ → ℕ → Bytes → Bytes
run_image cfg digest run payload = header_bytes run ++ (digest_bytes cfg digest ++ payload)

pub extent_of :
    (checksum : Bool) (digest run : ℕ) (payload : Bytes)
    → drop
        (start_of checksum)
        (header_bytes run ++ ((if checksum then le_bytes 8 digest else []) ++ payload))
      ≡ payload
unfolding header_bytes le_bytes
extent_of true digest run payload = refl
extent_of false digest run payload = refl

pub content_of :
    (checksum : Bool) (run : ℕ) (payload : Bytes)
    → drop (start_of checksum) (header_bytes run ++ (gap_of checksum ++ payload)) ≡ payload
unfolding header_bytes gap_of le_bytes
content_of true run payload = refl
content_of false run payload = refl

pub length-digest_of :
    (checksum : Bool) (digest : ℕ)
    → 8 + length (if checksum then le_bytes 8 digest else []) ≡ start_of checksum
unfolding le_bytes
length-digest_of true digest = refl
length-digest_of false digest = refl

pub verify_of :
    (checksum : Bool) (hash : Bytes → ℕ) (run : ℕ) (payload : Bytes)
    → hash payload < 2 ^ 64
    → let image =
        header_bytes run ++ ((if checksum then le_bytes 8 (hash payload) else []) ++ payload) in
      (if not checksum then true else hash (drop (start_of checksum) image) == get_uint64 image 8)
      ≡ true
unfolding header_bytes le_bytes get_uint64
verify_of true hash run payload fits =
    let stored : from_le (le_bytes 8 (hash payload)) ≡ hash payload =
      from_le-le_bytes 8 (hash payload) fits in
    rw stored (==_self (hash payload))
verify_of false hash run payload fits = refl

read_header-run :
    (run : ℕ) (rest : Bytes)
    → 1 ≤ run
    → run < 2 ^ 32
    → read_header (header_bytes run ++ rest)
      ≡ some (record { typ = type_overflow; flags = 0; count = 0; additional = run - 1 })
unfolding read_header header_bytes get_uint32 le_bytes
read_header-run run rest h k =
    let stored : from_le (le_bytes 4 (run - 1)) ≡ run - 1 =
      from_le-le_bytes 4 (run - 1) (omega arith) in
    let long : ltb (8 + length rest) 8 ≡ false = ground arith in
    let eight : 8 + length rest ≡ suc (suc (suc (suc (suc (suc (suc (suc (length rest)))))))) =
      omega arith in
    rw (← eight, long, stored) (unfold get_uint16 from_le in refl)

pub decode_of :
    (run : ℕ) (rest : Bytes)
    → 1 ≤ run
    → run < 2 ^ 32
    → decode_overflow_first_page (header_bytes run ++ rest) ≡ some (ok (run - 1))
unfolding decode_overflow_first_page additional_of
decode_of run rest h k = rw (decode_overflow_first_page, read_header-run run rest h k)
