-- ===== src/CloseGate/Drain.antt =====
-- The drain loop of BeginClose can always come to its end (internal/closegate/closegate.go).
use gmdb.Common.{
  ℕ, zero, suc, ◌^◌, ◌≤◌, ◌<◌, List, false, length, get_or, set, ◌≡◌, ◌∙◌, refl, ap, arith,
  if◌then◌else◌,
}
use gmdb.CloseGate.{enter_result, still_inflight}
use gmdb.Common.Count.{total, total-set, total_mono, heavy}
use gmdb.CloseGate.Steps.{
  Cleanup, outside, added, inside, skipping, releasing, Closer, waiting, draining, down, World,
  Step, load, leave_work, leave_skip, leave_read, drained, Steps, here, then_step, start,
}
use gmdb.CloseGate.Safety.{busy, Steps-IsSafe, reached-IsSafe}
use native.Mathlib.Decide.{dec_lt}

-- The steps that a cleanup still takes until it is outside.
abbrev left : Cleanup → ℕ
left outside = 0
left added = 2
left inside = 1
left skipping = 1
left releasing = 1

busy-le-left : (c : Cleanup) → busy c ≤ left c
busy-le-left outside = omega arith
busy-le-left added = omega arith
busy-le-left inside = omega arith
busy-le-left skipping = omega arith
busy-le-left releasing = omega arith

Steps-cons : {s t u : World} → Step s t → Steps t u → Steps s u
Steps-cons st here = then_step here st
Steps-cons st (then_step r last) = then_step (Steps-cons st r) last

-- A cleanup that is not outside takes a step, which leaves the closers as they are.
advance :
    (c : Cleanup) (s : World) (i : ℕ)
    → i < length s.cleanups
    → get_or s.cleanups i outside ≡ c
    → 0 < left c
    → (t : World) × Step s t
      × (t.closers ≡ s.closers)
      × (total left t.cleanups < total left s.cleanups)
advance outside s i h e k = absurd (omega arith)
advance added s i h e k =
    let n =
      total-set left s.cleanups i (if enter_result s.gate then inside else skipping) outside h in
    let was = ap left e in (_, load s i h e, refl, ground arith)
advance inside s i h e k =
    let n = total-set left s.cleanups i outside outside h in
    let was = ap left e in (_, leave_work s i h e, refl, omega arith)
advance skipping s i h e k =
    let n = total-set left s.cleanups i outside outside h in
    let was = ap left e in (_, leave_skip s i h e, refl, omega arith)
advance releasing s i h e k =
    let n = total-set left s.cleanups i outside outside h in
    let was = ap left e in (_, leave_read s i h e, refl, omega arith)

-- All cleanups go outside.
empty_out :
    (k : ℕ) (s : World)
    → total left s.cleanups ≤ k
    → (t : World) × Steps s t × (t.closers ≡ s.closers) × (total busy t.cleanups ≡ 0)
empty_out zero s h = (s, here, refl, omega (arith, total_mono busy left s.cleanups busy-le-left))
empty_out (suc k) s h = elim (dec_lt 0 (total left s.cleanups)) [
  | no none_left ↦ (s, here, refl, omega (arith, total_mono busy left s.cleanups busy-le-left))
  | yes some_left ↦
      let (i, inside_list, weight) = heavy left s.cleanups outside some_left in
      let (t, st, same, fewer) =
        advance (get_or s.cleanups i outside) s i inside_list refl weight in
      let (u, r, same_again, quiet) = empty_out k t (omega arith) in
      (u, Steps-cons st r, same_again ∙ same, quiet)
]

-- In every interleaving of fewer than 2 ^ 31 cleanups and any closers, from a new gate on, a closer that
-- waits in the loop of BeginClose can come out of it: there are steps, with no step of another closer,
-- after which it is behind the loop.
pub drain_can_finish :
    (n m : ℕ) (s : World)
    → n < 2 ^ 31
    → Steps (start n m) s
    → (i : ℕ) → i < length s.closers
    → get_or s.closers i waiting ≡ draining
    → (t : World) × Steps s t × (t.closers ≡ set s.closers i down)
unfolding still_inflight
drain_can_finish n m s h r i k e =
    let (t, more, same, quiet) = empty_out (total left s.cleanups) s (omega arith) in
    let safe = Steps-IsSafe more (reached-IsSafe n m h r) in
    let count : t.gate.tx_inflight ≡ 0 = safe.counted ∙ quiet in
    let test : still_inflight t.gate ≡ false = ground arith in
    let place : i < length t.closers = rw same k in
    let waits : get_or t.closers i waiting ≡ draining = rw same e in
    (_, then_step more (drained t i place waits test), ap (λ (c : List Closer). set c i down) same)
