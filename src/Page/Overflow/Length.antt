-- ===== src/Page/Overflow/Length.antt =====
-- The length of an overflow run (internal/page/overflow.go, OverflowRunLength64 and OverflowRunLength).
use gmdb.Common.{
  ℕ, zero, suc, ◌+◌, ◌-◌, ◌*◌, ◌/◌, ◌%◌, ◌^◌, ◌≤◌, ◌<◌, leb, ok, ◌≡◌, ◌⊎◌, inl, inr, arith,
  if◌then◌else◌, refl,
}
use native.Mathlib.Nat.{div-add-mod', mod-lt, mod-eq_of_lt, mul-le-mul_left, div-eq_of_lt}
use native.Mathlib.Decide.{dec_le}
use gmdb.Page
use gmdb.Page.Config.{Config, valid_page_size}
use gmdb.Page.Overflow.{
  head_content_start, first_page_capacity, follower_capacity, overflow_run_length64,
  overflow_run_length,
}

-- The bytes that a run of `run` pages holds.
abbrev pub run_capacity : Config → ℕ → ℕ
run_capacity cfg run = first_page_capacity cfg + (run - 1) * follower_capacity cfg

ceil_div : (r f : ℕ) → 0 < f → (r ≤ (r + f - 1) / f * f) × ((r + f - 1) / f * f < r + f)
ceil_div r f h =
    let split = div-add-mod' (r + f - 1) f in
    let small = mod-lt (r + f - 1) h in (omega arith, omega arith)

pub capacities :
    (cfg : Config)
    → Page.Config.validate cfg ≡ ok tt
    → (4096 ≤ follower_capacity cfg)
      × (follower_capacity cfg ≤ 65536)
      × (first_page_capacity cfg < follower_capacity cfg)
      × (4080 ≤ first_page_capacity cfg)
unfolding Page.Config.validate valid_page_size first_page_capacity follower_capacity
    head_content_start
capacities cfg v = ground arith

-- The code's expression, on numbers.
abbrev run_of : ℕ → ℕ → ℕ → ℕ
run_of first f n = if leb n first then 1 else (1 + (n - first + f - 1) % 2 ^ 64 / f) % 2 ^ 64

run_of_short : (first f n : ℕ) → n ≤ first → run_of first f n ≡ 1
run_of_short first f n h = ground arith

run_of_long :
    (first f n : ℕ)
    → 4096 ≤ f
    → first < n
    → n + f ≤ 2 ^ 64 + first
    → run_of first f n ≡ 1 + (n - first + f - 1) / f
run_of_long first f n large long h =
    let sum : n - first + f - 1 < 2 ^ 64 = omega arith in
    let whole = mod-eq_of_lt sum in
    let small = mul-le-mul_left ((n - first + f - 1) / f) large in
    let split = div-add-mod' (n - first + f - 1) f in
    let count : 1 + (n - first + f - 1) / f < 2 ^ 64 = omega arith in
    let fits = mod-eq_of_lt count in ground (arith, whole, fits)

Bounds : ℕ → ℕ → ℕ → ℕ → Type 0
Bounds first f n run =
    (1 ≤ run) × (n ≤ first + (run - 1) * f) × ((run ≡ 1) ⊎ (first + (run - 1 - 1) * f < n))

one_page-Bounds : (first f n : ℕ) → n ≤ first → Bounds first f n 1
unfolding Bounds
one_page-Bounds first f n h = (ground arith, ground arith, inl refl)

more_pages-Bounds :
    (first f n q : ℕ)
    → first < n
    → (n - first ≤ q * f) × (q * f < n - first + f)
    → Bounds first f n (1 + q)
unfolding Bounds
more_pages-Bounds first f n zero h (enough, least) = ground arith
more_pages-Bounds first f n (suc k) h (enough, least) =
    let covered : n ≤ first + suc k * f = omega arith in
    let above : first + k * f < n = omega arith in
    let less_one : 1 + suc k - 1 ≡ suc k = omega arith in
    let less_two : 1 + suc k - 1 - 1 ≡ k = omega arith in
    (omega arith, rw less_one covered, inr (rw less_two above))

run_of-Bounds :
    (first f n : ℕ)
    → 4096 ≤ f
    → first < f
    → n + f ≤ 2 ^ 64 + first
    → Bounds first f n (run_of first f n)
run_of-Bounds first f n large above room = elim (dec_le n first) [
  | yes short ↦ rw (run_of_short first f n short) (one_page-Bounds first f n short)
  | no long ↦ rw (run_of_long first f n large (omega arith) room) (
      more_pages-Bounds first f n ((n - first + f - 1) / f) (omega arith)
        (ceil_div (n - first) f (omega arith)))
]

-- The sum of a longer length wraps around to less than a page.
run_of_wrapped :
    (first f n : ℕ) → first < f → n < 2 ^ 64 → 2 ^ 64 + first < n + f → run_of first f n ≡ 1
run_of_wrapped first f n above short long =
    let small : (n - first + f - 1) % 2 ^ 64 < f = omega arith in
    let none_left = div-eq_of_lt small in ground arith

-- The run length of a value whose uint64 sum does not wrap around is at least 1, the run's pages hold
-- the value, and a run of one page less does not, in a valid configuration.
pub run_length64-Bounds :
    (cfg : Config) (val_len : ℕ)
    → Page.Config.validate cfg ≡ ok tt
    → val_len + follower_capacity cfg ≤ 2 ^ 64 + first_page_capacity cfg
    → let run = overflow_run_length64 cfg val_len in
      (1 ≤ run)
      × (val_len ≤ run_capacity cfg run)
      × ((run ≡ 1) ⊎ (run_capacity cfg (run - 1) < val_len))
unfolding overflow_run_length64 Bounds
run_length64-Bounds cfg val_len v room =
    let (large, _, above, _) = capacities cfg v in
    run_of-Bounds (first_page_capacity cfg) (follower_capacity cfg) val_len large above room

-- In a valid configuration the run length of a length below 2^64 is 1, though a page does not hold
-- the value, once the uint64 sum wraps around.
pub run_length64_wrapped :
    (cfg : Config) (val_len : ℕ)
    → Page.Config.validate cfg ≡ ok tt
    → val_len < 2 ^ 64
    → 2 ^ 64 + first_page_capacity cfg < val_len + follower_capacity cfg
    → (overflow_run_length64 cfg val_len ≡ 1) × (run_capacity cfg 1 < val_len)
unfolding overflow_run_length64
run_length64_wrapped cfg val_len v short long =
    let (_, small, above, _) = capacities cfg v in
    (
      run_of_wrapped (first_page_capacity cfg) (follower_capacity cfg) val_len above short long,
      omega arith,
    )

-- The 32-bit run length of a value is the 64-bit run length cut to 32 bits.
pub run_length_agrees :
    (cfg : Config) (val_len : ℕ)
    → overflow_run_length cfg val_len ≡ overflow_run_length64 cfg val_len % 2 ^ 32
unfolding overflow_run_length64 overflow_run_length
run_length_agrees cfg val_len = ground arith
