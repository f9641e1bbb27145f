-- ===== src/Pager/Rpl/Walk/Cases.antt =====
-- The ways out of one turn of the walk, and what holds where a segment is visited.
use gmdb.Common.{
  ℕ, ◌≤◌, ◌<◌, false, not, ◌&&◌, ◌||◌, Bool, Bytes, Option, none, some, ltb, leb, ◌==◌, ◌≡◌, ◌≢◌,
  arith, if_split, refl,
}
use gmdb.Pager.Rpl.Segment.{RplSegment}
use gmdb.Pager.Rpl.Walk.{
  ChainWalk, ErrorKind, StopReason, panicked, Loop, Turn, done, turn, visit_segment, after_visit,
  after_read, max_segs, SegmentRead, bad_footer, not_decoded, decoded, read_rpl_segment, fail, stop,
  head_exempt, seen, says_free, segment_out_of_range, segment_in_meta_region, chain_cycle,
  chain_too_long, reclaimed_boundary, tail_reached, head_checksum, head_malformed, footer_boundary,
  decode_boundary,
}

module _ {A : Type 0} (hash : Bytes → ℕ) (w : ChainWalk)
    (visit : A → ℕ → RplSegment → A × Bool) where
  -- What the checks establish before the visitor sees the segment.
  pub record Checked (l : Loop A) (seg : RplSegment) : Type 0 where
    pub below : l.id < w.high_bound
    pub above : w.low_bound ≤ l.id
    pub fresh : seen l.visited l.id ≡ false
    pub counted : l.segs ≤ max_segs hash w visit
    pub read : read_rpl_segment hash w.read_page w.cfg l.id ≡ some (decoded seg)
    pub ordered : seg.txn_id ≤ l.prev_txn_id

  module _ {κ} (P : Turn A → Type κ) (l : Loop A)
      (fails : (kind : ErrorKind) (bound : ℕ) → P (fail hash w visit kind l.id bound l.state))
      (stops : (reason : StopReason)
        → reason ≢ tail_reached
        → P (stop hash w visit reason l.id l.state))
      (panics : read_rpl_segment hash w.read_page w.cfg l.id ≡ none → P (done panicked))
      (visits : (seg : RplSegment)
        → Checked l seg
        → P (after_visit hash w visit l seg (visit l.state l.id seg))) where
    after_read_cases :
        (read : Option SegmentRead)
        → l.id < w.high_bound
        → w.low_bound ≤ l.id
        → seen l.visited l.id ≡ false
        → l.segs ≤ max_segs hash w visit
        → read_rpl_segment hash w.read_page w.cfg l.id ≡ read
        → P (after_read hash w visit l read)
    unfolding after_read visit_segment
    after_read_cases none b a f c r = panics r
    after_read_cases (some bad_footer) b a f c r =
        if_split P (l.id == w.head && head_exempt hash w visit) (λ _. fails head_checksum 0)
          (λ _. stops footer_boundary (cc))
    after_read_cases (some not_decoded) b a f c r =
        if_split P (l.id == w.head && head_exempt hash w visit) (λ _. fails head_malformed 0)
          (λ _. stops decode_boundary (cc))
    after_read_cases (some (decoded seg)) b a f c r =
        if_split P (ltb l.prev_txn_id seg.txn_id) (λ _. stops reclaimed_boundary (cc))
          (λ o. visits seg (record {
            below = b;
            above = a;
            fresh = f;
            counted = c;
            read = r;
            ordered = ground arith;
          }))

    pub turn_cases : P (turn hash w visit l)
    unfolding turn
    turn_cases =
        if_split P (leb w.high_bound l.id) (λ _. fails segment_out_of_range w.high_bound)
          (λ b.
            if_split P (ltb l.id w.low_bound) (λ _. fails segment_in_meta_region w.low_bound)
              (λ a.
                if_split P (seen l.visited l.id) (λ _. fails chain_cycle 0)
                  (λ f.
                    if_split P (ltb (max_segs hash w visit) l.segs)
                      (λ _. fails chain_too_long (max_segs hash w visit))
                      (λ c.
                        if_split P
                          ((not (l.id == w.head) || not (head_exempt hash w visit))
                            && says_free w.is_free l.id)
                          (λ _. stops reclaimed_boundary (cc))
                          (λ _.
                            after_read_cases (read_rpl_segment hash w.read_page w.cfg l.id)
                              (ground arith) (ground arith) f (ground arith) refl)))))
