-- ===== src/Tests/Page.antt =====
-- internal/page at concrete inputs; the hash counts bytes.
use gmdb.Common.{
  ℕ, ◌-◌, ◌*◌, ◌%◌, ◌^◌, ◌≤◌, ◌<◌, true, Bytes, some, ok, ◌≡◌, ◌⊎◌, refl, arith, length, replicate,
  take, length-replicate,
}
use gmdb.Page
use gmdb.Page.Config.{Config}
use gmdb.Page.Header.{write_page_footer, verify_page_footer}
use gmdb.Page.Header.Footer.{verify-write_page_footer}
use gmdb.Page.Overflow.{
  overflow_run_length64, overflow_run_length, write_overflow_run, overflow_run_extent,
  verify_overflow_run, decode_overflow_first_page, first_page_capacity, follower_capacity,
}
use gmdb.Page.Overflow.Length.{run_capacity, run_length64-Bounds, run_length64_wrapped}
use gmdb.Page.Overflow.Image.{write_at_page}
use gmdb.Page.Overflow.RoundTrip.{overflow_run_round_trip}

abbrev hash : Bytes → ℕ
hash bs = length bs % 2 ^ 64

hash_bound : (bs : Bytes) → hash bs < 2 ^ 64
hash_bound bs = omega arith

abbrev pub checked_pages : Config
checked_pages = record {
  page_size = 4096;
  page_checksum = true;
  restart_group_target = 0;
  leaf_layout = 0;
  branch_layout = 0;
}

pub checked_pages-validate : Page.Config.validate checked_pages ≡ ok tt
unfolding Page.Config.validate Page.Config.valid_page_size Page.Config.valid_layout
checked_pages-validate = refl

verify-write_page_footer_example :
    (page : Bytes) × (write_page_footer hash (replicate 4096 7) 4096 ≡ some page)
    × (length page ≡ 4096)
    × (take (4096 - 8) page ≡ take (4096 - 8) (replicate 4096 7))
    × (verify_page_footer hash page 4096 ≡ some true)
verify-write_page_footer_example =
    verify-write_page_footer hash (replicate 4096 7) 4096 (length-replicate {A = ℕ} 4096 7)
      (omega arith) (omega arith)

-- A value of 5000 bytes fills the head and a part of one follower.
run_5000 : overflow_run_length64 checked_pages 5000 ≡ 2
unfolding overflow_run_length64
run_5000 = refl

run_length64-Bounds_example :
    let run = overflow_run_length64 checked_pages 5000 in
    (1 ≤ run)
    × (5000 ≤ run_capacity checked_pages run)
    × ((run ≡ 1) ⊎ (run_capacity checked_pages (run - 1) < 5000))
unfolding first_page_capacity follower_capacity
run_length64-Bounds_example =
    run_length64-Bounds checked_pages 5000 checked_pages-validate (omega arith)

run_length64_wrapped_example :
    (overflow_run_length64 checked_pages (2 ^ 64 - 1) ≡ 1)
    × (run_capacity checked_pages 1 < 2 ^ 64 - 1)
unfolding first_page_capacity follower_capacity
run_length64_wrapped_example =
    run_length64_wrapped checked_pages (2 ^ 64 - 1) checked_pages-validate (omega arith)
      (omega arith)

few_pages : overflow_run_length64 checked_pages (length (replicate {A = ℕ} 5000 9)) < 2 ^ 32
few_pages = omega (arith, run_5000)

run_region :
    length (replicate {A = ℕ} 8192 1)
    ≡ overflow_run_length checked_pages (length (replicate {A = ℕ} 5000 9)) * 4096
unfolding overflow_run_length
run_region = refl

overflow_run_round_trip_example :
    (out : Bytes) × (write_overflow_run
        (write_at_page 4096)
        hash
        checked_pages
        (replicate 5000 9)
        (replicate 8192 1)
      ≡ ok out)
    × (length out ≡ length (replicate {A = ℕ} 8192 1))
    × (take (length (replicate {A = ℕ} 5000 9)) (overflow_run_extent out checked_pages)
        ≡ replicate 5000 9)
    × (verify_overflow_run hash out checked_pages ≡ true)
    × (decode_overflow_first_page out
        ≡ some (ok (overflow_run_length checked_pages (length (replicate {A = ℕ} 5000 9)) - 1)))
unfolding first_page_capacity follower_capacity overflow_run_length64 overflow_run_length
overflow_run_round_trip_example =
    overflow_run_round_trip hash checked_pages (replicate 5000 9) (replicate 8192 1)
      checked_pages-validate hash_bound (omega (arith, length-replicate {A = ℕ} 5000 9)) few_pages
      run_region
