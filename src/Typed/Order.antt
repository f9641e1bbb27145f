-- ===== src/Typed/Order.antt =====
-- The order and the round trips of the integer encoders (typed/typed_encoder.go).
use gmdb.Common.{
  ℕ, suc, ◌+◌, ◌-◌, ◌%◌, ◌^◌, ◌<◌, [], true, false, ok, ltb, bit_xor, ◌≡◌, refl, ap, arith, ◌∙◌,
}
use Prim.Native.Nat.{compare}
use native.Mathlib.Nat.{pow-suc, mod-eq_of_lt}
use gmdb.Common.Bits.Top.{bit_xor-top}
use gmdb.Common.BigEndian.{be_bytes, from_be, length-be_bytes, from_be-be_bytes, compare-be_bytes}
use gmdb.Common.Integers.{ℤ, pos, negsuc, compare_ℤ}
use gmdb.Common.Order.{compare_bytes}
use gmdb.Typed.{
  word_of, int_of, append_int64, decode_int64, append_int32, decode_int32, append_uint64,
  decode_uint64, append_uint32, decode_uint32,
}

-- The integers of `suc top` bits.
abbrev pub IsInt : ℕ → ℤ → Type 0
IsInt top (pos n) = n < 2 ^ top
IsInt top (negsuc n) = n < 2 ^ top

-- The sign bit flipped: the integer above the least one.
biased : ℕ → ℤ → ℕ
biased top (pos n) = n + 2 ^ top
biased top (negsuc n) = 2 ^ top - 1 - n

word_of-flip : (top : ℕ) (z : ℤ) → IsInt top z → bit_xor (word_of top z) (2 ^ top) ≡ biased top z
unfolding word_of biased
word_of-flip top (pos n) h =
    let twice = pow-suc 2 top in
    let room : n < 2 ^ suc top = omega (arith, twice) in
    let small : n % 2 ^ suc top ≡ n = mod-eq_of_lt room in
    rw small (bit_xor-top top n (omega (arith, twice)) ∙ ground arith)
word_of-flip top (negsuc n) h =
    let twice = pow-suc 2 top in
    let room : n < 2 ^ suc top = omega (arith, twice) in
    let small : n % 2 ^ suc top ≡ n = mod-eq_of_lt room in
    rw small (bit_xor-top top (2 ^ suc top - 1 - n) (omega (arith, twice)) ∙ ground (arith, twice))

biased-lt : (top : ℕ) (z : ℤ) → IsInt top z → biased top z < 2 ^ suc top
unfolding biased
biased-lt top (pos n) h = omega (arith, pow-suc 2 top)
biased-lt top (negsuc n) h = omega (arith, pow-suc 2 top)

compare-biased :
    (top : ℕ) (y z : ℤ)
    → IsInt top y
    → IsInt top z
    → compare (biased top y) (biased top z) ≡ compare_ℤ y z
unfolding biased compare_ℤ
compare-biased top (pos a) (pos b) h k = ground arith
compare-biased top (pos a) (negsuc b) h k = ground arith
compare-biased top (negsuc a) (pos b) h k = ground arith
compare-biased top (negsuc a) (negsuc b) h k = ground arith

int_of-flip : (top : ℕ) (z : ℤ) → IsInt top z → int_of top (bit_xor (biased top z) (2 ^ top)) ≡ z
unfolding biased int_of
int_of-flip top (pos n) h =
    let twice = pow-suc 2 top in
    let flipped : bit_xor (n + 2 ^ top) (2 ^ top) ≡ n =
      bit_xor-top top (n + 2 ^ top) (omega (arith, twice)) ∙ ground arith in
    let test : ltb n (2 ^ top) ≡ true = ground arith in rw (flipped, test)
int_of-flip top (negsuc n) h =
    let twice = pow-suc 2 top in
    let flipped : bit_xor (2 ^ top - 1 - n) (2 ^ top) ≡ 2 ^ suc top - 1 - n =
      bit_xor-top top (2 ^ top - 1 - n) (omega (arith, twice)) ∙ ground (arith, twice) in
    let test : ltb (2 ^ suc top - 1 - n) (2 ^ top) ≡ false = ground (arith, twice) in
    let back : 2 ^ suc top - 1 - (2 ^ suc top - 1 - n) ≡ n = omega (arith, twice) in
    rw (flipped, test, back)

-- The bytes of the signed encoders, of `n` bytes and `suc top` bits.
signed_order :
    (n top : ℕ) (y z : ℤ)
    → 2 ^ suc top ≡ 256 ^ n
    → IsInt top y
    → IsInt top z
    → compare_bytes
        (be_bytes n (bit_xor (word_of top y) (2 ^ top)))
        (be_bytes n (bit_xor (word_of top z) (2 ^ top)))
      ≡ compare_ℤ y z
signed_order n top y z e h k =
    let fits = biased-lt top y h in
    let fits_too = biased-lt top z k in
    let left : biased top y % 256 ^ n ≡ biased top y = mod-eq_of_lt (rw e at fits) in
    let right : biased top z % 256 ^ n ≡ biased top z = mod-eq_of_lt (rw e at fits_too) in
    rw (word_of-flip top y h, word_of-flip top z k, compare-be_bytes n, left, right)
      (compare-biased top y z h k)

signed_back :
    (n top : ℕ) (z : ℤ)
    → 2 ^ suc top ≡ 256 ^ n
    → IsInt top z
    → int_of top (bit_xor (from_be (be_bytes n (bit_xor (word_of top z) (2 ^ top)))) (2 ^ top)) ≡ z
signed_back n top z e h =
    let fits = biased-lt top z h in
    let whole : biased top z % 256 ^ n ≡ biased top z = mod-eq_of_lt (rw e at fits) in
    rw (word_of-flip top z h, from_be-be_bytes n, whole) (int_of-flip top z h)

-- The byte order of Int64Encoder is the order of the 64-bit integers, and that of Int32Encoder the order of
-- the 32-bit ones: the first two are 64-bit integers, the other two 32-bit ones.
signed_encoders_order :
    (a b c d : ℤ)
    → IsInt 63 a
    → IsInt 63 b
    → IsInt 31 c
    → IsInt 31 d
    → (compare_bytes (append_int64 [] a) (append_int64 [] b) ≡ compare_ℤ a b)
      × (compare_bytes (append_int32 [] c) (append_int32 [] d) ≡ compare_ℤ c d)
unfolding append_int64 append_int32
signed_encoders_order a b c d ha hb hc hd =
    (signed_order 8 63 a b refl ha hb, signed_order 4 31 c d refl hc hd)

-- Decode of the signed encoders gives back each 64-bit and each 32-bit integer.
signed_encoders_round_trip :
    (a c : ℤ)
    → IsInt 63 a
    → IsInt 31 c
    → (decode_int64 (append_int64 [] a) ≡ ok a) × (decode_int32 (append_int32 [] c) ≡ ok c)
unfolding append_int64 append_int32 decode_int64 decode_int32
signed_encoders_round_trip a c ha hc = (
  rw (length-be_bytes 8 (bit_xor (word_of 63 a) (2 ^ 63))) (ap ok (signed_back 8 63 a refl ha)),
  rw (length-be_bytes 4 (bit_xor (word_of 31 c) (2 ^ 31))) (ap ok (signed_back 4 31 c refl hc)),
)

-- The unsigned encoders order 64-bit and 32-bit numbers as the numbers are ordered, and Decode gives each
-- back.
unsigned_encoders_order :
    (a b c d : ℕ)
    → a < 2 ^ 64
    → b < 2 ^ 64
    → c < 2 ^ 32
    → d < 2 ^ 32
    → (compare_bytes (append_uint64 [] a) (append_uint64 [] b) ≡ compare a b)
      × (compare_bytes (append_uint32 [] c) (append_uint32 [] d) ≡ compare c d)
      × (decode_uint64 (append_uint64 [] a) ≡ ok a)
      × (decode_uint32 (append_uint32 [] c) ≡ ok c)
unfolding append_uint64 append_uint32 decode_uint64 decode_uint32
unsigned_encoders_order a b c d ha hb hc hd =
    let a_fits : a % 256 ^ 8 ≡ a = omega arith in
    let b_fits : b % 256 ^ 8 ≡ b = omega arith in
    let c_fits : c % 256 ^ 4 ≡ c = omega arith in
    let d_fits : d % 256 ^ 4 ≡ d = omega arith in
    (
      compare-be_bytes 8 a b ∙ rw (a_fits, b_fits),
      compare-be_bytes 4 c d ∙ rw (c_fits, d_fits),
      rw (length-be_bytes 8 a) (ap ok (from_be-be_bytes 8 a ∙ a_fits)),
      rw (length-be_bytes 4 c) (ap ok (from_be-be_bytes 4 c ∙ c_fits)),
    )

-- The byte order of Int64Encoder, Int32Encoder, Uint64Encoder and Uint32Encoder is the order of the signed
-- or unsigned integers of 64 and 32 bits, and Decode of each gives back what it encoded.
pub encoders_order_and_back :
    (a b c d : ℤ) (m n p q : ℕ)
    → IsInt 63 a
    → IsInt 63 b
    → IsInt 31 c
    → IsInt 31 d
    → m < 2 ^ 64
    → n < 2 ^ 64
    → p < 2 ^ 32
    → q < 2 ^ 32
    → ((compare_bytes (append_int64 [] a) (append_int64 [] b) ≡ compare_ℤ a b)
        × (compare_bytes (append_int32 [] c) (append_int32 [] d) ≡ compare_ℤ c d))
      × ((decode_int64 (append_int64 [] a) ≡ ok a) × (decode_int32 (append_int32 [] c) ≡ ok c))
      × (compare_bytes (append_uint64 [] m) (append_uint64 [] n) ≡ compare m n)
      × (compare_bytes (append_uint32 [] p) (append_uint32 [] q) ≡ compare p q)
      × (decode_uint64 (append_uint64 [] m) ≡ ok m)
      × (decode_uint32 (append_uint32 [] p) ≡ ok p)
encoders_order_and_back a b c d m n p q ha hb hc hd hm hn hp hq =
    let (first, second, third, fourth) = unsigned_encoders_order m n p q hm hn hp hq in
    (
      signed_encoders_order a b c d ha hb hc hd,
      signed_encoders_round_trip a c ha hc,
      first,
      second,
      third,
      fourth,
    )
