-- ===== src/Page/Subpage/Image.antt =====
-- The bytes of a subpage for a list of values, and reads from them (internal/page/subpage.go).
use gmdb.Common.{
  ℕ, zero, suc, ◌+◌, ◌-◌, ◌*◌, ◌^◌, ◌<◌, List, [], ◌∷◌, ◌++◌, true, false, Bytes, ok, All, leb, ltb,
  length, length-append, append_assoc, take-append_at, drop-append_at, get_or, ◌≡◌, refl, ap, arith,
  ◌∙◌,
}
use gmdb.Common.Buffer.{le_bytes, from_le, get_uint16}
use gmdb.Common.Buffer.Laws.{from_le-le_bytes, length-le_bytes}
use gmdb.Page.Subpage.{SubpageReader, slice_of, uint16_of, new_subpage_reader}

-- An entry: with its length in front where the values' sizes vary, that is, where the size is 0.
unfoldable pub entry : ℕ → Bytes → Bytes
entry zero v = le_bytes 2 (length v) ++ v
entry (suc stride) v = v

unfoldable pub body : ℕ → List Bytes → Bytes
body fixed [] = []
body fixed (v ∷ vs) = entry fixed v ++ body fixed vs

unfoldable pub header : ℕ → ℕ → Bytes
header count data_size = le_bytes 2 count ++ le_bytes 2 data_size

unfoldable pub image : ℕ → List Bytes → Bytes
image fixed vs = header (length vs) (length (body fixed vs)) ++ body fixed vs

-- A value that an entry holds.
abbrev pub Sized : ℕ → Bytes → Type 0
Sized zero v = length v < 2 ^ 16
Sized (suc stride) v = length v ≡ suc stride

unfoldable pub reader : ℕ → List Bytes → SubpageReader
reader fixed vs = record {
  buf = image fixed vs;
  count = length vs;
  data_size = length (body fixed vs);
  fixed_value_size = fixed;
}

pub body-append :
    (fixed : ℕ) (xs ys : List Bytes) → body fixed (xs ++ ys) ≡ body fixed xs ++ body fixed ys
unfolding body
body-append fixed [] ys = refl
body-append fixed (x ∷ xs) ys = rw (body-append fixed xs ys, append_assoc (entry fixed x))

pub length-header : (count data_size : ℕ) → length (header count data_size) ≡ 4
unfolding header le_bytes
length-header count data_size = refl

pub length-image :
    (fixed : ℕ) (vs : List Bytes) → length (image fixed vs) ≡ 4 + length (body fixed vs)
unfolding image
length-image fixed vs =
    let h = header (length vs) (length (body fixed vs)) in
    omega
      (arith, length-append h (body fixed vs), length-header (length vs) (length (body fixed vs)))

-- A slice that is one part of a buffer.
pub slice_of-append :
    (front part rest : Bytes) (lo hi : ℕ)
    → length front ≡ lo
    → lo + length part ≡ hi
    → slice_of (front ++ (part ++ rest)) lo hi ≡ ok part
unfolding slice_of
slice_of-append front part rest lo hi e k =
    let whole = length-append front (part ++ rest) in
    let behind = length-append part rest in
    let above : leb lo hi ≡ true = ground arith in
    let below : leb hi (length (front ++ (part ++ rest))) ≡ true = ground arith in
    rw (above, below, drop-append_at lo front (part ++ rest) e)
      (ap ok (take-append_at (hi - lo) part rest (omega arith)))

pub uint16_of-append :
    (front rest : Bytes) (off n : ℕ)
    → length front ≡ off
    → n < 2 ^ 16
    → uint16_of (front ++ (le_bytes 2 n ++ rest)) off ≡ ok n
unfolding uint16_of get_uint16
uint16_of-append front rest off n e h =
    let whole = length-append front (le_bytes 2 n ++ rest) in
    let behind = length-append (le_bytes 2 n) rest in
    let below : leb (off + 2) (length (front ++ (le_bytes 2 n ++ rest))) ≡ true =
      ground (arith, length-le_bytes 2 n) in
    rw (below, drop-append_at off front (le_bytes 2 n ++ rest) e)
      (ap ok (
        ap from_le (take-append_at 2 (le_bytes 2 n) rest (length-le_bytes 2 n))
        ∙ from_le-le_bytes 2 n (omega arith)))

-- NewSubpageReader on the image.
pub new_subpage_reader-image :
    (fixed : ℕ) (vs : List Bytes)
    → length vs < 2 ^ 16
    → length (body fixed vs) < 2 ^ 16
    → new_subpage_reader (image fixed vs) fixed ≡ ok (reader fixed vs)
unfolding new_subpage_reader reader
new_subpage_reader-image fixed vs h k =
    let count : get_uint16 (image fixed vs) 0 ≡ length vs =
      unfold image header get_uint16 le_bytes in from_le-le_bytes 2 (length vs) (omega arith) in
    let size : get_uint16 (image fixed vs) 2 ≡ length (body fixed vs) =
      unfold image header get_uint16 le_bytes in
      from_le-le_bytes 2 (length (body fixed vs)) (omega arith) in
    let long : ltb (length (image fixed vs)) 4 ≡ false = ground (arith, length-image fixed vs) in
    rw (long, count, size)

-- The two reads of a variable-size entry.
module _ (front rest v : Bytes) (off : ℕ) (e : length front ≡ off) where
  pub uint16_of-entry :
      length v < 2 ^ 16 → uint16_of (front ++ (entry 0 v ++ rest)) off ≡ ok (length v)
  unfolding entry
  uint16_of-entry h =
      rw (append_assoc (le_bytes 2 (length v)))
        (uint16_of-append front (v ++ rest) off (length v) e h)

  pub slice_of-entry : slice_of (front ++ (entry 0 v ++ rest)) (off + 2) (off + 2 + length v) ≡ ok v
  unfolding entry
  slice_of-entry =
      let length_bytes = le_bytes 2 (length v) in
      rw (append_assoc length_bytes, ← append_assoc front)
        (slice_of-append (front ++ length_bytes) v rest (off + 2) (off + 2 + length v)
          (omega (arith, length-append front length_bytes, length-le_bytes 2 (length v))) refl)

  pub length-entry : length (front ++ entry 0 v) ≡ off + 2 + length v
  unfolding entry
  length-entry = omega (
    arith,
    length-append front (le_bytes 2 (length v) ++ v),
    length-append (le_bytes 2 (length v)) v,
    length-le_bytes 2 (length v),
  )

-- A fixed-size entry, at its index.
pub slice_of-body :
    (stride : ℕ) (front : Bytes) (vs : List Bytes) (off i : ℕ)
    → length front ≡ off
    → All (Sized (suc stride)) vs
    → i < length vs
    → slice_of
        (front ++ body (suc stride) vs)
        (off + i * suc stride)
        (off + i * suc stride + suc stride)
      ≡ ok (get_or vs i [])
unfolding body entry
slice_of-body stride front [] off i e h k = absurd (omega arith)
slice_of-body stride front (v ∷ vs) off zero e h k =
    slice_of-append front v (body (suc stride) vs) _ _ (omega arith) (omega (arith, h.0))
slice_of-body stride front (v ∷ vs) off (suc i) e h k =
    let later =
      slice_of-body stride (front ++ v) vs (off + suc stride) i
        (omega (arith, length-append front v, h.0)) h.1 (omega arith) in
    let place : off + suc stride + i * suc stride ≡ off + suc i * suc stride = omega arith in
    rw (append_assoc front, place) at later
