-- ===== src/Lock/Safety.antt =====
-- No act of any process takes a live reader's pin away (internal/lock/reader.go).
use gmdb.Common.{ℕ, ◌<◌, ◌≤◌, true, none, some, ◌≡◌, ◌∙◌, refl, sym}
use gmdb.Lock.Kernel.{RangeLocks, hold}
use gmdb.Lock.{slot, has, take_hold, zero_txn_id, zero_pid, oldest_reader_txn_id}
use gmdb.Lock.Locking.{locker}
use gmdb.Lock.Effects.{take_effect, probe_effect}
use gmdb.Lock.Steps.{
  World, file_of, scan_of, reap_of, Step, try_slot, give_back, clear_txn_id, clear_pid, unlock,
  raise, judge, die, Steps, here, then_step, fresh,
}
use gmdb.Lock.Ownership.{IsOwned, some_hold_inj, fresh-IsOwned, held-or}
use gmdb.Lock.Trying.{take-IsOwned, probe-IsOwned}
use gmdb.Lock.Holding.{
  give_back-IsOwned, stored-IsOwned, unlock-IsOwned, raise-IsOwned, die-IsOwned,
}
use gmdb.Lock.Oldest.{WordIds, oldest_reader_txn_id_lem}

module _ (os : RangeLocks) where
  pub Step-IsOwned : {w v : World os.Kernel} → Step os w v → IsOwned os w → IsOwned os v
  unfolding reap_of file_of take_hold zero_txn_id zero_pid
  Step-IsOwned (try_slot w f i txn pid u pos inside idle) own =
      take-IsOwned os w f i txn pid u _ pos inside idle
        (take_effect os txn pid (scan_of os w f u) i) own
  Step-IsOwned (give_back w f i held) own = give_back-IsOwned os w f i held own
  Step-IsOwned (clear_txn_id w f i begun) own = stored-IsOwned os w f i _ begun own
  Step-IsOwned (clear_pid w f i begun) own = stored-IsOwned os w f i _ begun own
  Step-IsOwned (unlock w f i begun) own = unlock-IsOwned os w f i begun own
  Step-IsOwned (raise w f i txn sh pos e) own = raise-IsOwned os w f i txn sh pos e own
  Step-IsOwned (judge w f i c u inside) own =
      probe-IsOwned os w f i c u _ inside (probe_effect os (file_of w f) (reap_of os w c u) i) own
  Step-IsOwned (die w f) own = die-IsOwned os w f own

  pub Steps-IsOwned : {w v : World os.Kernel} → Steps os w v → IsOwned os w → IsOwned os v
  Steps-IsOwned here own = own
  Steps-IsOwned (then_step before st) own = Step-IsOwned st (Steps-IsOwned before own)

  -- In every world that handles of any processes reach from a table of free slots, provided that no
  -- handle tries a slot that it is itself still releasing, a slot in a handle's hold set is locked by that handle and in no other handle's hold set, its transaction id is not 0,
  -- and no handle's OldestReaderTxnID is above that id.
  pub live_pin_counts :
      (k : os.Kernel) (n : ℕ) (w : World os.Kernel) (f i : ℕ)
      → ((j : ℕ) → locker os k j ≡ none)
      → Steps os (fresh os k n) w
      → WordIds w.shared.slots
      → has (w.holds f) i ≡ true
      → (locker os w.shared.kernel i ≡ some (hold f))
        × ((g : ℕ) → has (w.holds g) i ≡ true → g ≡ f)
        × (0 < (slot w.shared.slots i).txn_id)
        × ((g : ℕ) → oldest_reader_txn_id (file_of w g) w.shared ≤ (slot w.shared.slots i).txn_id)
  unfolding IsOwned file_of
  live_pin_counts k n w f i unlocked run words held =
      let own = Steps-IsOwned run (fresh-IsOwned os k n unlocked) i in
      let mine = own.locked f (held-or _ _ held) in
      (
        mine,
        λ g also. some_hold_inj g f (sym (own.locked g (held-or _ _ also)) ∙ mine),
        own.pinned f held,
        λ g. (oldest_reader_txn_id_lem (file_of w g) w.shared refl words).0 i (own.pinned f held),
      )
