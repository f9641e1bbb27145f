-- ===== src/CloseGate/Steps.antt =====
-- The interleavings of the gate's users: cleanups (EnterCleanup, work, ExitCleanup: those of
-- write transactions in tx.go, which work only behind the answer true, and those of read transactions in
-- read_tx.go, which release their slot whatever the answer) and closers (DB.Close by CompareAndSwapClosed, the handle's own cleanup by SwapClosed, as in db.go).
use gmdb.Common.{ℕ, ◌<◌, List, true, false, length, get_or, set, ◌≡◌, if◌then◌else◌, replicate}
use gmdb.CloseGate.{
  Gate, new, enter_add, enter_result, exit_cleanup, begin_store, still_inflight,
  compare_and_swap_closed, swap_closed,
}

-- Where a cleanup stands: outside, between the two halves of EnterCleanup, behind it with the result
-- true, behind it with the result false, and, of a read transaction, behind it with either.
pub data Cleanup : Type 0 where
  outside added inside skipping releasing : Cleanup

-- Where a closer stands: before the swap, behind a lost one, behind a won one, in the loop of BeginClose,
-- and behind it, where it tears the resources down.
pub data Closer : Type 0 where
  waiting lost won draining down : Closer

pub record World : Type 0 where
  pub gate : Gate
  pub cleanups : List Cleanup
  pub closers : List Closer

-- One atomic step of one of them.
pub data Step : World → World → Type 0 where
  add :
      (s : World) (i : ℕ)
      → i < length s.cleanups
      → get_or s.cleanups i outside ≡ outside
      → Step s (record s { gate = enter_add s.gate; cleanups = set s.cleanups i added })
  load :
      (s : World) (i : ℕ)
      → i < length s.cleanups
      → get_or s.cleanups i outside ≡ added
      → Step s (record s {
        cleanups = set s.cleanups i (if enter_result s.gate then inside else skipping);
      })
  -- readTxCleanupFn does not look at EnterCleanup's answer.
  load_read :
      (s : World) (i : ℕ)
      → i < length s.cleanups
      → get_or s.cleanups i outside ≡ added
      → Step s (record s { cleanups = set s.cleanups i releasing })
  leave_work :
      (s : World) (i : ℕ)
      → i < length s.cleanups
      → get_or s.cleanups i outside ≡ inside
      → Step s (record s { gate = exit_cleanup s.gate; cleanups = set s.cleanups i outside })
  leave_skip :
      (s : World) (i : ℕ)
      → i < length s.cleanups
      → get_or s.cleanups i outside ≡ skipping
      → Step s (record s { gate = exit_cleanup s.gate; cleanups = set s.cleanups i outside })
  leave_read :
      (s : World) (i : ℕ)
      → i < length s.cleanups
      → get_or s.cleanups i outside ≡ releasing
      → Step s (record s { gate = exit_cleanup s.gate; cleanups = set s.cleanups i outside })
  close :
      (s : World) (i : ℕ)
      → i < length s.closers
      → get_or s.closers i waiting ≡ waiting
      → Step s (record s {
        gate = (compare_and_swap_closed s.gate false true).0;
        closers =
            set s.closers i (if (compare_and_swap_closed s.gate false true).1 then won else lost);
      })
  finalize :
      (s : World) (i : ℕ)
      → i < length s.closers
      → get_or s.closers i waiting ≡ waiting
      → Step s (record s {
        gate = (swap_closed s.gate true).0;
        closers = set s.closers i (if (swap_closed s.gate true).1 then lost else won);
      })
  store :
      (s : World) (i : ℕ)
      → i < length s.closers
      → get_or s.closers i waiting ≡ won
      → Step s (record s { gate = begin_store s.gate; closers = set s.closers i draining })
  drained :
      (s : World) (i : ℕ)
      → i < length s.closers
      → get_or s.closers i waiting ≡ draining
      → still_inflight s.gate ≡ false
      → Step s (record s { closers = set s.closers i down })

pub data Steps (s : World) : World → Type 0 where
  here : Steps s s
  then_step : {t u : World} → Steps s t → Step t u → Steps s u

-- A new gate, with `n` cleanups outside and `m` closers that wait.
unfoldable pub start : ℕ → ℕ → World
unfolding new
start n m = record { gate = new; cleanups = replicate n outside; closers = replicate m waiting }
