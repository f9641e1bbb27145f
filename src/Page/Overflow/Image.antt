-- ===== src/Page/Overflow/Image.antt =====
-- A value cut into the pages of a run (internal/page/overflow.go, the loop of WriteOverflowRun).
use gmdb.Common.{
  ℕ, zero, suc, ◌+◌, ◌-◌, ◌*◌, ◌≤◌, [], ◌∷◌, ◌++◌, Bytes, Result, ok, length, take, drop, replicate,
  length-drop, length-append, append_assoc, append-nil, ◌≡◌, refl, ap, arith, ◌∙◌,
}
use Prim.Native.Nat.add
use gmdb.Common.Buffer.{put}
use gmdb.Common.Buffer.Laws.{put-append}
use gmdb.Page.Overflow.{follower_page, write_followers}

-- The first `n` bytes of `xs`, with zeros behind them if there are fewer.
unfoldable pub pad : ℕ → Bytes → Bytes
pad zero xs = []
pad (suc n) [] = 0 ∷ pad n []
pad (suc n) (x ∷ xs) = x ∷ pad n xs

pub length-pad : (n : ℕ) (xs : Bytes) → length (pad n xs) ≡ n
unfolding pad
length-pad zero xs = refl
length-pad (suc n) [] = ap suc (length-pad n [])
length-pad (suc n) (x ∷ xs) = ap suc (length-pad n xs)

pad-add_nil : (m n : ℕ) → pad (m + n) [] ≡ pad m [] ++ pad n []
unfolding pad
pad-add_nil zero n = rw add.zero
pad-add_nil (suc m) n = rw (add.suc, pad-add_nil m n)

pub pad-add : (m n : ℕ) (xs : Bytes) → pad (m + n) xs ≡ pad m xs ++ pad n (drop m xs)
unfolding pad
pad-add zero n xs = rw add.zero
pad-add (suc m) n [] = pad-add_nil (suc m) n
pad-add (suc m) n (x ∷ xs) = rw (add.suc, pad-add m n xs)

pub take-pad : (n : ℕ) (xs : Bytes) → length xs ≤ n → take (length xs) (pad n xs) ≡ xs
unfolding pad
take-pad n [] h = refl
take-pad zero (x ∷ xs) h = absurd (omega arith)
take-pad (suc n) (x ∷ xs) h = ap (λ (t : Bytes). x ∷ t) (take-pad n xs (omega arith))

pad-nil : (n : ℕ) → replicate n 0 ≡ pad n []
unfolding pad
pad-nil zero = refl
pad-nil (suc n) = ap (λ (t : Bytes). 0 ∷ t) (pad-nil n)

pub pad-lem : (n : ℕ) (xs : Bytes) → take n xs ++ replicate (n - length (take n xs)) 0 ≡ pad n xs
unfolding pad
pad-lem zero xs = refl
pad-lem (suc n) [] = let all : suc n - 0 ≡ suc n = omega arith in rw all (pad-nil (suc n))
pad-lem (suc n) (x ∷ xs) =
    let less : suc n - suc (length (take n xs)) ≡ n - length (take n xs) = omega arith in
    rw (less, pad-lem n xs)

append-pad_zero : (front xs : Bytes) → front ++ pad 0 xs ≡ front
unfolding pad
append-pad_zero front xs = append-nil front

-- The page source of a run kept in a contiguous region of a file.
unfoldable pub write_at_page : ℕ → Bytes → ℕ → Bytes → Result (Unit {0}) Bytes
write_at_page page_size region i buf = ok (put (i * page_size) buf region)

-- The loop writes the value, padded with zeros, behind the pages before the first of its followers.
pub write_followers-pad :
    (page_size n i : ℕ) (rest streamed front back : Bytes)
    → length front ≡ i * page_size
    → length back ≡ n * page_size
    → write_followers (write_at_page page_size) page_size n i rest streamed (front ++ back)
      ≡ ok (front ++ pad (n * page_size) rest, streamed ++ pad (n * page_size) rest)
unfolding write_followers write_at_page follower_page
write_followers-pad page_size zero i rest streamed front [] e k =
    let none_left : 0 * page_size ≡ 0 = omega arith in
    rw (none_left, append-nil front, append-pad_zero front rest, append-pad_zero streamed rest)
write_followers-pad page_size zero i rest streamed front (b ∷ back) e k = absurd (omega arith)
write_followers-pad page_size (suc n) i rest streamed front back e k =
    let buf = pad page_size rest in
    let size : length buf ≡ page_size = length-pad page_size rest in
    let pages : suc n * page_size ≡ page_size + n * page_size = omega arith in
    let written : put (i * page_size) buf (front ++ back) ≡ (front ++ buf) ++ drop page_size back =
      rw (← e) (put-append front back buf ∙ ap (λ (m : ℕ). (front ++ buf) ++ drop m back) size) in
    let later =
      write_followers-pad page_size n (i + 1) (drop page_size rest) (streamed ++ buf) (front ++ buf)
        (drop page_size back) (omega (arith, length-append front buf))
        (omega (arith, length-drop page_size back)) in
    rw (pad-lem page_size rest, written, later, pages, pad-add page_size (n * page_size) rest)
      (rw (append_assoc, append_assoc))
