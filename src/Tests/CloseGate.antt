-- ===== src/Tests/CloseGate.antt =====
-- internal/closegate at concrete runs.
use gmdb.Common.{ℕ, Bool, [], ◌∷◌, true, false, ◌≡◌, refl, arith, set}
use gmdb.CloseGate.{
  new, enter_add, enter_result, exit_cleanup, begin_store, still_inflight, compare_and_swap_closed,
}
use gmdb.CloseGate.Steps.{
  World, Steps, start, add, load, leave_work, close, store, drained, here, then_step, Cleanup,
  Closer, won, inside, outside, down, draining, waiting, added,
}
use gmdb.Common.Count.{total}
use gmdb.CloseGate.Safety.{at_work, winner, teardown_excludes_work}
use gmdb.CloseGate.Drain.{drain_can_finish}

abbrev world : ℕ → Bool → Cleanup → Closer → World
world n closed c d = record {
  gate = record { closed = closed; tx_inflight = n };
  cleanups = c ∷ [];
  closers = d ∷ [];
}

-- A cleanup is at work when the gate is closed, and the closer waits for it.
waits_for_cleanup : Steps (start 1 1) (world 1 true inside draining)
unfolding start new enter_add enter_result begin_store compare_and_swap_closed
waits_for_cleanup =
    let none_yet : Steps (start 1 1) (world 0 false outside waiting) = here in
    let counts : Steps (start 1 1) (world 1 false added waiting) =
      then_step none_yet (add _ 0 (omega arith) refl) in
    let enters : Steps (start 1 1) (world 1 false inside waiting) =
      then_step counts (load _ 0 (omega arith) refl) in
    let wins : Steps (start 1 1) (world 1 true inside won) =
      then_step enters (close _ 0 (omega arith) refl) in
    then_step wins (store _ 0 (omega arith) refl)

-- The cleanup leaves, and the closer goes on.
tears_down : Steps (start 1 1) (world 0 true outside down)
unfolding exit_cleanup still_inflight
tears_down =
    let leaves : Steps (start 1 1) (world 0 true outside draining) =
      then_step waits_for_cleanup (leave_work _ 0 (omega arith) refl) in
    then_step leaves (drained _ 0 (omega arith) refl refl)

teardown_excludes_work_example :
    (total at_work (outside ∷ []) ≡ 0) × (total winner (down ∷ []) ≡ 1) × (true ≡ true)
teardown_excludes_work_example =
    teardown_excludes_work 1 1 (world 0 true outside down) (omega arith) tears_down 0 (omega arith)
      refl

drain_can_finish_example :
    (t : World) × Steps (world 1 true inside draining) t × (t.closers ≡ set (draining ∷ []) 0 down)
drain_can_finish_example =
    drain_can_finish 1 1 (world 1 true inside draining) (omega arith) waits_for_cleanup 0
      (omega arith) refl
