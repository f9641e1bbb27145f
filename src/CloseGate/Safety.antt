-- ===== src/CloseGate/Safety.antt =====
-- The gate keeps the teardown and the work of write transactions' cleanups apart (internal/closegate/closegate.go).
use gmdb.Common.{
  ℕ, zero, suc, ◌+◌, ◌^◌, ◌≤◌, ◌<◌, Bool, true, false, length, get_or, set, length-set, ◌≡◌, ◌∙◌,
  ◌⊎◌, inl, inr, refl, ap, sym, arith, if◌then◌else◌, replicate, length-replicate,
}
use gmdb.CloseGate.{
  Gate, new, enter_add, enter_result, exit_cleanup, begin_store, still_inflight,
  compare_and_swap_closed, swap_closed,
}
use gmdb.Common.Count.{total, total-set, total_mono, total-le-length, get_or-le-total}
use gmdb.CloseGate.Steps.{
  Cleanup, outside, added, inside, skipping, releasing, Closer, waiting, lost, won, draining, down,
  World, Step, add, load, load_read, leave_work, leave_skip, leave_read, close, finalize, store,
  drained, Steps, here, then_step, start,
}

-- Between EnterCleanup's increment and ExitCleanup's decrement; a write transaction's at work.
abbrev pub busy : Cleanup → ℕ
busy outside = 0
busy added = 1
busy inside = 1
busy skipping = 1
busy releasing = 1

abbrev pub at_work : Cleanup → ℕ
at_work outside = 0
at_work added = 0
at_work inside = 1
at_work skipping = 0
at_work releasing = 0

-- Closers that won the swap; those of them that tear down.
abbrev pub winner : Closer → ℕ
winner waiting = 0
winner lost = 0
winner won = 1
winner draining = 1
winner down = 1

abbrev pub tearing : Closer → ℕ
tearing waiting = 0
tearing lost = 0
tearing won = 0
tearing draining = 0
tearing down = 1

abbrev pub flag : Bool → ℕ
flag b = if b then 1 else 0

pub record IsSafe (s : World) : Type 0 where
  pub few : length s.cleanups < 2 ^ 31
  pub counted : s.gate.tx_inflight ≡ total busy s.cleanups
  pub one_winner : total winner s.closers ≤ flag s.gate.closed
  pub quiet : 0 < total tearing s.closers → total at_work s.cleanups ≡ 0

at_work-le-busy : (c : Cleanup) → at_work c ≤ busy c
at_work-le-busy outside = omega arith
at_work-le-busy added = omega arith
at_work-le-busy inside = omega arith
at_work-le-busy skipping = omega arith
at_work-le-busy releasing = omega arith

busy-le-one : (c : Cleanup) → busy c ≤ 1
busy-le-one outside = omega arith
busy-le-one added = omega arith
busy-le-one inside = omega arith
busy-le-one skipping = omega arith
busy-le-one releasing = omega arith

tearing-le-winner : (c : Closer) → tearing c ≤ winner c
tearing-le-winner waiting = omega arith
tearing-le-winner lost = omega arith
tearing-le-winner won = omega arith
tearing-le-winner draining = omega arith
tearing-le-winner down = omega arith

-- A cleanup moves from one place to another.
cleanup_moves :
    (s : World) (g : Gate) (i : ℕ) (v : Cleanup)
    → i < length s.cleanups
    → IsSafe s
    → g.closed ≡ s.gate.closed
    → g.tx_inflight + busy (get_or s.cleanups i outside) ≡ s.gate.tx_inflight + busy v
    → (0 < total tearing s.closers → at_work v ≤ at_work (get_or s.cleanups i outside))
    → IsSafe (record s { gate = g; cleanups = set s.cleanups i v })
cleanup_moves s g i v h safe same count calm =
    let b = total-set busy s.cleanups i v outside h in
    let w = total-set at_work s.cleanups i v outside h in
    record {
      few = rw length-set safe.few;
      counted = omega (arith, safe.counted);
      one_winner = rw same safe.one_winner;
      quiet = λ t. omega (arith, safe.quiet t, calm t);
    }

-- A closer moves from one place to another.
closer_moves :
    (s : World) (g : Gate) (i : ℕ) (v : Closer)
    → i < length s.closers
    → IsSafe s
    → g.tx_inflight ≡ s.gate.tx_inflight
    → flag s.gate.closed + winner v ≤ flag g.closed + winner (get_or s.closers i waiting)
    → (tearing v ≡ 0) ⊎ (total at_work s.cleanups ≡ 0)
    → IsSafe (record s { gate = g; closers = set s.closers i v })
closer_moves s g i v h safe same wins calm =
    let w = total-set winner s.closers i v waiting h in
    let t = total-set tearing s.closers i v waiting h in
    record {
      few = safe.few;
      counted = same ∙ safe.counted;
      one_winner = omega (arith, safe.one_winner);
      quiet =
          λ p. elim calm [ inl none_new ↦ safe.quiet (omega arith) | inr quiet_now ↦ quiet_now ];
    }

-- While the resources are torn down, the gate is closed.
tearing-closed : (s : World) → IsSafe s → 0 < total tearing s.closers → s.gate.closed ≡ true
tearing-closed s safe h =
    let w = total_mono tearing winner s.closers tearing-le-winner in
    let one = safe.one_winner in ground arith

not_inflight : (s : World) → IsSafe s → still_inflight s.gate ≡ false → total at_work s.cleanups ≡ 0
unfolding still_inflight
not_inflight s safe e =
    let n = total-le-length busy s.cleanups busy-le-one in
    let w = total_mono at_work busy s.cleanups at_work-le-busy in
    let count = safe.counted in
    let few = safe.few in let zero_count : s.gate.tx_inflight ≡ 0 = ground arith in omega arith

leave-IsSafe :
    (s : World) (i : ℕ)
    → i < length s.cleanups
    → busy (get_or s.cleanups i outside) ≡ 1
    → IsSafe s
    → IsSafe (record s { gate = exit_cleanup s.gate; cleanups = set s.cleanups i outside })
unfolding exit_cleanup
leave-IsSafe s i h e v =
    let n = get_or-le-total busy s.cleanups i outside h in
    let m = total-le-length busy s.cleanups busy-le-one in
    cleanup_moves s (exit_cleanup s.gate) i outside h v refl (omega (arith, v.counted, v.few))
      (λ _. omega arith)

Step-IsSafe : {s t : World} → Step s t → IsSafe s → IsSafe t
unfolding enter_add enter_result begin_store compare_and_swap_closed swap_closed
Step-IsSafe (add s i h e) v =
    let n = total-le-length busy s.cleanups busy-le-one in
    let count = v.counted in
    cleanup_moves s (enter_add s.gate) i added h v refl (rw e (omega arith)) (λ _. omega arith)
Step-IsSafe (load s i h e) v =
    cleanup_moves s s.gate i (if enter_result s.gate then inside else skipping) h v refl
      (rw e (ground arith)) (λ t. rw (tearing-closed s v t) (omega arith))
Step-IsSafe (load_read s i h e) v =
    cleanup_moves s s.gate i releasing h v refl (rw e refl) (λ _. omega arith)
Step-IsSafe (leave_work s i h e) v = leave-IsSafe s i h (ap busy e) v
Step-IsSafe (leave_skip s i h e) v = leave-IsSafe s i h (ap busy e) v
Step-IsSafe (leave_read s i h e) v = leave-IsSafe s i h (ap busy e) v
Step-IsSafe (close s i h e) v =
    closer_moves s (compare_and_swap_closed s.gate false true).0 i
      (if (compare_and_swap_closed s.gate false true).1 then won else lost) h v (ground arith)
      (rw e (ground arith)) (inl (ground arith))
Step-IsSafe (finalize s i h e) v =
    closer_moves s (swap_closed s.gate true).0 i (if (swap_closed s.gate true).1 then lost else won)
      h v refl (rw e (ground arith)) (inl (ground arith))
Step-IsSafe (store s i h e) v =
    closer_moves s (begin_store s.gate) i draining h v refl (rw e (ground arith)) (inl refl)
Step-IsSafe (drained s i h e q) v =
    closer_moves s s.gate i down h v refl (rw e (omega arith)) (inr (not_inflight s v q))

pub Steps-IsSafe : {s t : World} → Steps s t → IsSafe s → IsSafe t
Steps-IsSafe here v = v
Steps-IsSafe (then_step r st) v = Step-IsSafe st (Steps-IsSafe r v)

total-replicate_zero :
    {A : Type 0} (w : A → ℕ) (n : ℕ) (a : A) → w a ≡ 0 → total w (replicate n a) ≡ 0
unfolding total
total-replicate_zero w zero a e = refl
total-replicate_zero w (suc n) a e = omega (arith, total-replicate_zero w n a e)

pub start-IsSafe : (n m : ℕ) → n < 2 ^ 31 → IsSafe (start n m)
unfolding start new
start-IsSafe n m h = record {
  few = rw length-replicate h;
  counted = sym (total-replicate_zero busy n outside refl);
  one_winner = omega (arith, total-replicate_zero winner m waiting refl);
  quiet = λ _. total-replicate_zero at_work n outside refl;
}

pub reached-IsSafe : (n m : ℕ) {s : World} → n < 2 ^ 31 → Steps (start n m) s → IsSafe s
reached-IsSafe n m h r = Steps-IsSafe r (start-IsSafe n m h)

-- In every interleaving of fewer than 2 ^ 31 cleanups and any closers, from a new gate on: while one
-- closer is behind BeginClose, where it tears the resources down, no cleanup of a write transaction,
-- which works only behind EnterCleanup's answer true, is at work on them (the cleanup of a read
-- transaction works whatever the answer), that closer is the only one that won the swap, and the gate is
-- closed.
pub teardown_excludes_work :
    (n m : ℕ) (s : World)
    → n < 2 ^ 31
    → Steps (start n m) s
    → (i : ℕ) → i < length s.closers
    → get_or s.closers i waiting ≡ down
    → (total at_work s.cleanups ≡ 0) × (total winner s.closers ≡ 1) × (s.gate.closed ≡ true)
teardown_excludes_work n m s h r i k e =
    let v = reached-IsSafe n m h r in
    let one : 1 ≤ total tearing s.closers =
      rw (← ap tearing e) (get_or-le-total tearing s.closers i waiting k) in
    let w = total_mono tearing winner s.closers tearing-le-winner in
    let closed = tearing-closed s v one in (v.quiet one, ground (arith, v.one_winner), closed)
