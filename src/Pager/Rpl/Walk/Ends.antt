-- ===== src/Pager/Rpl/Walk/Ends.antt =====
-- The walk ends (internal/pager/rplwalk.go, Walk).
use gmdb.Common.{
  ℕ, zero, suc, ◌+◌, ◌%◌, ◌^◌, ◌≤◌, ◌<◌, not, Bool, Bytes, ◌==◌, ◌≡◌, ◌≢◌, arith, if_split,
}
use gmdb.Pager.Rpl.Segment.{RplSegment}
use gmdb.Pager.Rpl.Walk.{
  ChainWalk, Outcome, out_of_fuel, Loop, Turn, done, again, turn, after_visit, resume, walk_loop,
  walk, max_segs, first, fail, stop,
}
use gmdb.Pager.Rpl.Walk.Cases.{Checked, turn_cases}

-- A turn from segment number `segs` on ends the walk, and not for want of fuel, or counts that segment.
abbrev Counted : {A : Type 0} → ℕ → ℕ → Turn A → Type 0
Counted bound segs (done o) = o ≢ out_of_fuel
Counted bound segs (again l) = (segs ≤ bound) × (l.segs ≡ segs + 1)

module _ {A : Type 0} (hash : Bytes → ℕ) (w : ChainWalk) (visit : A → ℕ → RplSegment → A × Bool)
    (small : w.entry_count + 2 < 2 ^ 64) where
  after_visit-Counted :
      (l : Loop A) (seg : RplSegment) (r : A × Bool)
      → Checked hash w visit l seg
      → Counted (w.entry_count + 1) l.segs (after_visit hash w visit l seg r)
  unfolding after_visit fail stop max_segs
  after_visit-Counted l seg (state, go) c =
      let few : l.segs ≤ (w.entry_count + 1) % 2 ^ 64 = c.counted in
      let P = Counted {A = A} (w.entry_count + 1) l.segs in
      if_split P (not go) (λ _. cc)
        (λ _.
          if_split P (l.id == w.tail) (λ _. cc)
            (λ _. if_split P (seg.older_segment == 0) (λ _. cc) (λ _. (omega arith, omega arith))))

  turn-Counted : (l : Loop A) → Counted (w.entry_count + 1) l.segs (turn hash w visit l)
  unfolding fail stop
  turn-Counted l =
      turn_cases hash w visit (Counted {A = A} (w.entry_count + 1) l.segs) l (λ kind bound. cc)
        (λ reason ne. cc) (λ _. cc) (λ seg c. after_visit-Counted l seg (visit l.state l.id seg) c)

  resume_ends :
      (segs : ℕ) (next : Loop A → Outcome A) (t : Turn A)
      → Counted (w.entry_count + 1) segs t
      → ((l : Loop A) → segs ≤ w.entry_count + 1 → l.segs ≡ segs + 1 → next l ≢ out_of_fuel)
      → resume hash w visit next t ≢ out_of_fuel
  unfolding resume
  resume_ends segs next (done o) c h = c
  resume_ends segs next (again l) (few, one) h = h l few one

  walk_loop_ends :
      (fuel : ℕ) (l : Loop A)
      → w.entry_count + 2 < l.segs + fuel
      → l.segs ≤ w.entry_count + 2
      → walk_loop hash w visit fuel l ≢ out_of_fuel
  unfolding walk_loop
  walk_loop_ends zero l h k = absurd (omega arith)
  walk_loop_ends (suc fuel) l h k =
      resume_ends l.segs (walk_loop hash w visit fuel) (turn hash w visit l) (turn-Counted l)
        (λ next few one. walk_loop_ends fuel next (omega arith) (omega arith))

  -- Walk ends for every content of the pages and every visitor: the fuel of the model does not run out,
  -- where the count of entries that the meta page names leaves the count of segments below 2 ^ 64.
  pub walk_ends : (state : A) → walk hash w visit state ≢ out_of_fuel
  unfolding walk first
  walk_ends state =
      if_split (λ (o : Outcome A). o ≢ out_of_fuel) (w.head == 0) (λ _. cc)
        (λ _.
          if_split (λ (o : Outcome A). o ≢ out_of_fuel) (w.tail == 0) (λ _. cc)
            (λ _.
              walk_loop_ends (w.entry_count + 3) (first hash w visit state) (omega arith)
                (omega arith)))
