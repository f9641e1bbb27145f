-- ===== src/Bitmap/Scan.antt =====
-- internal/bitmap/bitmap.go: the searches for free pages.
mod Words
pub mod Lowest
pub mod Forward
use gmdb.Common.{
  ℕ, zero, suc, ◌+◌, ◌-◌, ◌*◌, ◌/◌, ◌%◌, ◌^◌, max, min, Option, none, some, ltb, leb, ◌==◌, ◌&&◌,
  ◌||◌, if◌then◌else◌, get_or, bit_and,
}
use gmdb.Common.Bits.Single.{and_not}
use gmdb.Common.Bits.Masks.{trailing_zeros}
use gmdb.Bitmap.{Bitmap, read_detail_word}

-- The two edge masks of the loop of `scanForward`.
pub mask_first : ℕ → ℕ → ℕ → ℕ
mask_first from w dw = if w == from / 64 then and_not dw (2 ^ (from % 64) - 1) else dw

pub mask_last : ℕ → ℕ → ℕ → ℕ
mask_last to w dw =
    if w == (to + 63) / 64 - 1 && ltb 0 (to % 64) then bit_and dw (2 ^ (to % 64) - 1) else dw

-- The loop of `scanForward` at word `w`, with `from` and `to` already clamped, and with fuel.
pub scan_words : ℕ → Bitmap → ℕ → ℕ → ℕ → Option ℕ
unfolding mask_first mask_last
scan_words zero b from to w = none
scan_words (suc fuel) b from to w =
    let skip = scan_words fuel b from to (w + 64) in
    let next = scan_words fuel b from to (w + 1) in
    let dw = read_detail_word b.detail w in
    let masked = mask_last to w (mask_first from w dw) in
    let page = w * 64 + trailing_zeros 64 masked in
    if leb ((to + 63) / 64) w
    then none
    else if w % 64 == 0 && get_or b.summary (w / 64) 0 == 0
    then skip
    else if dw == 0
    then next
    else if masked == 0
    then next
    else if ltb page b.first_data_page || leb to page
    then next
    else some page

-- `scanForward`; the fuel is the number of words below `to`.
pub scan_forward : Bitmap → ℕ → ℕ → Option ℕ
unfolding scan_words
scan_forward b from to =
    let lo = max from b.first_data_page in
    let hi = min to b.total_pages in
    if leb hi lo then none else scan_words ((hi + 63) / 64) b lo hi (lo / 64)

-- The second search of `FindFirst`, where the first one found nothing.
pub or_else : Option ℕ → Option ℕ → Option ℕ
or_else none other = other
or_else (some p) other = some p

-- `FindFirst`
pub find_first : Bitmap → Option ℕ
unfolding scan_forward or_else
find_first b =
    if b.num_free == 0
    then none
    else or_else (scan_forward b b.hint b.total_pages) (scan_forward b b.first_data_page b.hint)

-- `FindFirstBelowFrom`
pub find_first_below_from : Bitmap → ℕ → ℕ → Option ℕ
unfolding scan_forward
find_first_below_from b from floor =
    let lo = max from b.first_data_page in
    let hi = min floor b.total_pages in if leb hi lo then none else scan_forward b lo hi
