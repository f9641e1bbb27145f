-- ===== src/Tests/Rpl.antt =====
-- internal/pager/rplformat.go and rplwalk.go at concrete inputs; the hash is a constant.
use gmdb.Common.{
  ℕ, [], ◌∷◌, ◌++◌, true, Bool, Bytes, none, some, ◌≡◌, ◌≢◌, refl, arith, length, replicate, drop,
  length-replicate, if◌then◌else◌, ◌==◌, if_split,
}
use gmdb.Tests.Page.{checked_pages, checked_pages-validate}
use gmdb.Page.Config.{content_end}
use gmdb.Pager.Rpl.Segment.{RplSegment, encode_rpl_segment, decode_rpl_segment, entries_per_segment}
use gmdb.Pager.Rpl.Segment.RoundTrip.{decode-encode_rpl_segment}
use gmdb.Pager.Rpl.Walk.{ChainWalk, walk, out_of_fuel}
use gmdb.Pager.Rpl.Walk.Ends.{walk_ends}
use gmdb.Pager.Rpl.Walk.Chain.{keep, Walked, walk_chain}

abbrev no_hash : Bytes → ℕ
no_hash bs = 0

decode-encode_rpl_segment_example :
    (out : Bytes) × (encode_rpl_segment (replicate 4096 0) checked_pages 7 9 (11 ∷ 12 ∷ [])
      ≡ some out)
    × (length out ≡ length (replicate {A = ℕ} 4096 0))
    × (drop (content_end checked_pages) out ≡ drop (content_end checked_pages) (replicate 4096 0))
    × (decode_rpl_segment out checked_pages
        ≡ some (some (record { txn_id = 7; older_segment = 9; page_ids = 11 ∷ 12 ∷ [] })))
unfolding entries_per_segment content_end
decode-encode_rpl_segment_example =
    decode-encode_rpl_segment (replicate 4096 0) checked_pages 7 9 (11 ∷ 12 ∷ [])
      checked_pages-validate (omega (arith, length-replicate {A = ℕ} 4096 0)) (omega arith)
      (record {
        txn_id_fits = omega arith;
        older_fits = omega arith;
        ids_fit = (omega arith, (omega arith, tt));
      })

-- A segment with one id, followed by zeros: the footer of a page whose hash is 0.
abbrev segment_page : ℕ → ℕ → ℕ → Bytes
segment_page txn_id older id =
    (4 ∷ 0 ∷ 1 ∷ 0 ∷ 0 ∷ 0 ∷ 0 ∷ 0 ∷ txn_id ∷ 0 ∷ 0 ∷ 0 ∷ 0 ∷ 0 ∷ 0 ∷ 0 ∷ [])
    ++ ((older ∷ 0 ∷ 0 ∷ 0 ∷ 0 ∷ 0 ∷ 0 ∷ 0 ∷ id ∷ 0 ∷ 0 ∷ 0 ∷ 0 ∷ 0 ∷ 0 ∷ 0 ∷ [])
        ++ replicate 4064 0)

-- Page 5 is the head, and names page 9, the tail.
abbrev pages : ℕ → Bytes
pages id = if id == 5 then segment_page 7 9 20 else segment_page 6 0 21

pages_size : (id : ℕ) → length (pages id) ≡ 4096
pages_size id = if_split (λ (p : Bytes). length p ≡ 4096) (id == 5) (λ _. refl) (λ _. refl)

abbrev chain : ChainWalk
chain = record {
  read_page = pages;
  cfg = checked_pages;
  head = 5;
  head_txn_id = 7;
  tail = 9;
  entry_count = 2;
  reclaim_epoch = 3;
  low_bound = 4;
  high_bound = 30;
  is_free = none;
}

abbrev always : ℕ → RplSegment → Bool
always id seg = true

walk_ends_example : walk no_hash chain (keep always) [] ≢ out_of_fuel
walk_ends_example = walk_ends no_hash chain (keep always) (omega arith) []

walk_chain_example : Walked no_hash chain (walk no_hash chain (keep always) [])
walk_chain_example = walk_chain no_hash chain always checked_pages-validate pages_size (omega arith)
