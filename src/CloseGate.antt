-- ===== src/CloseGate.antt =====
-- internal/closegate/closegate.go: the gate between a database's Close and the cleanups of leaked
-- transactions. Each operation below is one atomic operation of sync/atomic.
pub mod Steps
pub mod Safety
pub mod Drain
use gmdb.Common.{ℕ, ◌+◌, ◌-◌, ◌%◌, ◌^◌, Bool, true, false, ◌&&◌, ltb, if◌then◌else◌, not, ◌||◌}

-- `Gate`; `tx_inflight` is the bit pattern of an int32.
pub record Gate : Type 0 where
  pub closed : Bool
  pub tx_inflight : ℕ

-- `New`
unfoldable pub new : Gate
new = record { closed = false; tx_inflight = 0 }

-- `EnterCleanup`: the increment, and then its result, from the load of `closed`.
unfoldable pub enter_add : Gate → Gate
enter_add g = record g { tx_inflight = (g.tx_inflight + 1) % 2 ^ 32 }

unfoldable pub enter_result : Gate → Bool
enter_result g = if g.closed then false else true

-- `ExitCleanup`
unfoldable pub exit_cleanup : Gate → Gate
exit_cleanup g = record g { tx_inflight = (g.tx_inflight + (2 ^ 32 - 1)) % 2 ^ 32 }

-- `BeginClose`: the store, and the test on which its loop goes on.
unfoldable pub begin_store : Gate → Gate
begin_store g = record g { closed = true }

unfoldable pub still_inflight : Gate → Bool
still_inflight g = ltb 0 g.tx_inflight && ltb g.tx_inflight (2 ^ 31)

-- `IsClosed`
pub is_closed : Gate → Bool
is_closed g = g.closed

-- `CompareAndSwapClosed`: the gate and whether the swap was made.
unfoldable pub compare_and_swap_closed : Gate → Bool → Bool → Gate × Bool
compare_and_swap_closed g old new =
    if (g.closed && old) || (not g.closed && not old)
    then (record g { closed = new }, true)
    else (g, false)

-- `SwapClosed`: the gate and the value before.
unfoldable pub swap_closed : Gate → Bool → Gate × Bool
swap_closed g new = (record g { closed = new }, g.closed)
