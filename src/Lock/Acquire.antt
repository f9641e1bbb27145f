-- ===== src/Lock/Acquire.antt =====
-- AcquireReaderSlot of internal/lock/reader.go: what each of its results means.
use gmdb.Common.{ℕ, ◌<◌, true, false, ◌==◌, length, ◌≡◌}
use gmdb.Lock.Kernel.{RangeLocks}
use gmdb.Lock.{
  free_slot, slot, has, Scan, Acquired, slot_index, readers_full, acquisition_undecided, panics,
}
use gmdb.Lock.Effects.{Faulty}
use gmdb.Lock.Steps.{World, after_scan, owns, Steps}
use gmdb.Lock.Ownership.{IsOwned}
use gmdb.Lock.Rounds.{Live}

module _ (os : RangeLocks) where
  -- What AcquireReaderSlot promises of handle `f`: a slot that no live handle had or was releasing is its own and bears
  -- the reader's ids, and the other slots are unchanged; or the table is unchanged, and every slot has a
  -- live owner, or the kernel failed.
  abbrev pub Promise : World os.Kernel → World os.Kernel → ℕ → ℕ → ℕ → Acquired → Type 0
  Promise w v f txn pid (slot_index i) =
      (i < length w.shared.slots)
      × ((g : ℕ) → owns w g i ≡ false)
      × (has (v.holds f) i ≡ true)
      × (slot v.shared.slots i ≡ record free_slot { txn_id = txn; pid = pid })
      × ((j : ℕ) → (i == j) ≡ false → slot v.shared.slots j ≡ slot w.shared.slots j)
  Promise w v f txn pid readers_full =
      ((i : ℕ) → i < length w.shared.slots → Live w i) × (v.shared.slots ≡ w.shared.slots)
  Promise w v f txn pid (acquisition_undecided e) = Faulty os × (v.shared.slots ≡ w.shared.slots)
  Promise w v f txn pid panics = ⊥

  -- Handle `f` is releasing no slot.
  abbrev pub Idle : World os.Kernel → ℕ → Type 0
  Idle w f = (i : ℕ) → has (w.releasing f) i ≡ false

  abbrev Kept : World os.Kernel → ℕ → ℕ → ℕ → Acquired × Scan os.Kernel → Type 0
  Kept w f txn pid out =
      IsOwned os (after_scan os w f out.1) × Promise w (after_scan os w f out.1) f txn pid out.0
