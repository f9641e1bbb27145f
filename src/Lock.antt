-- ===== src/Lock.antt =====
-- The reader table of the lock file: internal/lock/reader.go on its Linux backend, with the slots and
-- constants of internal/lock/format.go. Each definition runs by
-- itself; which acts others can come between is in Lock/Steps.antt.
pub mod Kernel
pub mod Locking
pub mod Effects
pub mod Steps
pub mod Ownership
pub mod Trying
pub mod Holding
pub mod Oldest
pub mod Safety
pub mod Pins
pub mod Walk
pub mod Passes
pub mod Rounds
pub mod Acquire
pub mod Reaper
pub mod Race
use gmdb.Common.{
  ℕ, zero, suc, ◌+◌, ◌*◌, ◌-◌, ◌%◌, ◌^◌, Bool, true, false, ◌&&◌, not, ltb, ◌==◌, ◌||◌,
  if◌then◌else◌, Option, none, some, List, [], ◌∷◌, length, get_or, set,
}
use gmdb.Lock.Kernel.{RangeLocks, Description, hold, probe, Attempt, granted, contended, failed}

abbrev lock_header_size : ℕ
lock_header_size = 144

abbrev pub slot_size : ℕ
slot_size = 56

-- `ReaderSlot`
pub record ReaderSlot : Type 0 where
  pub txn_id : ℕ
  pub pid : ℕ
  pub reserved1 : ℕ
  pub reserved2 : ℕ
  pub reserved3 : ℕ
  pub reserved4 : ℕ
  pub reserved5 : ℕ

abbrev pub free_slot : ReaderSlot
free_slot = record {
  txn_id = 0;
  pid = 0;
  reserved1 = 0;
  reserved2 = 0;
  reserved3 = 0;
  reserved4 = 0;
  reserved5 = 0;
}

-- The mapped reader table, and the kernel's lock table beside it.
pub record Shared (K : Type 0) : Type 0 where
  pub slots : List ReaderSlot
  pub kernel : K

-- A handle: its number, whether it is still mapped (`f.slots != nil`), and the keys of its hold set.
pub record File : Type 0 where
  pub id : ℕ
  pub mapped : Bool
  pub holds : List ℕ

-- `File.Slot`; every caller's index is below `MaxReaders`, the length of the table.
unfoldable pub slot : List ReaderSlot → ℕ → ReaderSlot
slot slots idx = get_or slots idx free_slot

-- `holdSet.has`, `holdSet.put` and `holdSet.take`
unfoldable pub has : List ℕ → ℕ → Bool
has [] idx = false
has (held ∷ holds) idx = held == idx || has holds idx

unfoldable pub put : List ℕ → ℕ → List ℕ
put holds idx = idx ∷ holds

unfoldable pub remove : List ℕ → ℕ → List ℕ
remove [] idx = []
remove (held ∷ holds) idx = let rest = remove holds idx in if held == idx then rest else held ∷ rest

-- `slotRangeOff`
unfoldable pub slot_range_off : ℕ → ℕ
slot_range_off idx = lock_header_size + slot_size * idx

-- What `tryHold` and `tryProbe` return: a release function, errSlotBusy, or another error.
pub data Locked : Type 0 where
  acquired slot_busy : Locked
  undecided : ℕ → Locked

-- The test in `take` on an error that is no contention: the first one is kept.
unfoldable pub note_undecided : Option ℕ → ℕ → Option ℕ
note_undecided none e = some e
note_undecided (some first) e = some first

unfoldable pub verdict : Attempt → Locked
verdict granted = acquired
verdict contended = slot_busy
verdict (failed e) = undecided e

-- What `AcquireReaderSlot` returns, its panics included.
pub data Acquired : Type 0 where
  slot_index : ℕ → Acquired
  readers_full panics : Acquired
  acquisition_undecided : ℕ → Acquired

-- The state that `take` closes over.
pub record Scan (K : Type 0) : Type 0 where
  pub file : File
  pub shared : Shared K
  pub first_undecided : Option ℕ

-- The table and the two counts of `ReapStaleReaderSlots`.
pub record Reap (K : Type 0) : Type 0 where
  pub shared : Shared K
  pub cleared : ℕ
  pub undecided_probes : ℕ

-- `NoReaderTxnID`
abbrev pub no_reader_txn_id : ℕ
no_reader_txn_id = 2 ^ 64 - 1

-- The loop of `OldestReaderTxnID`, over the slots in order.
unfoldable pub min_txn_from : List ReaderSlot → ℕ → ℕ
min_txn_from [] min_txn = min_txn
min_txn_from (s ∷ slots) min_txn =
    min_txn_from slots (if not (s.txn_id == 0) && ltb s.txn_id min_txn then s.txn_id else min_txn)

-- `CountActiveReaders`
unfoldable pub count_active_readers : List ReaderSlot → ℕ
count_active_readers [] = 0
count_active_readers (s ∷ slots) =
    (if not (s.txn_id == 0) then 1 else 0) + count_active_readers slots

unfoldable pub not_found : Option ℕ → Acquired
not_found none = readers_full
not_found (some e) = acquisition_undecided e

-- `ReapStaleReaderSlots`: the clear under the held probe, and the count of it
unfoldable pub clear_stale : List ReaderSlot → ℕ → List ReaderSlot × ℕ
clear_stale slots i =
    if (slot slots i).txn_id == 0
    then (slots, 0)
    else (set slots i (record (slot slots i) { txn_id = 0; pid = 0 }), 1)

module _ {K : Type 0} where
  -- `OldestReaderTxnID`
  unfoldable pub oldest_reader_txn_id : File → Shared K → ℕ
  unfolding min_txn_from
  oldest_reader_txn_id f sh =
      if not f.mapped then no_reader_txn_id else min_txn_from sh.slots no_reader_txn_id

-- `ReleaseReaderSlot`: the entry that `holdSet.take` finds and deletes
unfoldable pub take_hold : File → ℕ → Bool × File
take_hold f idx = (has f.holds idx, record f { holds = remove f.holds idx })

module _ {K : Type 0} where
  -- its store of the transaction id
  unfoldable pub zero_txn_id : Shared K → ℕ → Shared K
  zero_txn_id sh idx = record sh {
    slots = set sh.slots idx (record (slot sh.slots idx) { txn_id = 0 });
  }

  -- its store of the process id
  unfoldable pub zero_pid : Shared K → ℕ → Shared K
  zero_pid sh idx = record sh { slots = set sh.slots idx (record (slot sh.slots idx) { pid = 0 }) }

module _ (os : RangeLocks) where
  -- `rangeLocks.try`; `tryHold` and `tryProbe` call it on the two descriptions.
  unfoldable pub try : os.Kernel → Description → ℕ → Locked × os.Kernel
  try k d idx =
      let r = os.try_exclusive_range k d (slot_range_off idx) slot_size in (verdict r.0, r.1)

  unfoldable pub release : os.Kernel → Description → ℕ → os.Kernel
  release k d idx = os.unlock_range k d (slot_range_off idx) slot_size

  -- The stores of `take` once the lock is held.
  unfoldable pub publish : Shared os.Kernel → ℕ → ℕ → ℕ → Shared os.Kernel
  publish sh idx txn pid = record sh {
    slots = set sh.slots idx (record free_slot { txn_id = txn; pid = pid });
  }

  -- `take` behind the call of `tryHold`
  unfoldable pub taken : Scan os.Kernel → ℕ → ℕ → ℕ → Locked × os.Kernel → Bool × Scan os.Kernel
  taken s idx txn pid (acquired, k) = (
    true,
    record s {
      file = record (s.file) { holds = put s.file.holds idx };
      shared = publish (record (s.shared) { kernel = k }) idx txn pid;
    },
  )
  taken s idx txn pid (slot_busy, k) =
      (false, record s { shared = record (s.shared) { kernel = k } })
  taken s idx txn pid (undecided e, k) = (
    false,
    record s {
      shared = record (s.shared) { kernel = k };
      first_undecided = note_undecided s.first_undecided e;
    },
  )

  -- `take`
  unfoldable pub take : ℕ → ℕ → Scan os.Kernel → ℕ → Bool × Scan os.Kernel
  take txn pid s idx =
      if has s.file.holds idx
      then (false, s)
      else taken s idx txn pid (try s.shared.kernel (hold s.file.id) idx)

  -- The body of the first loop: a slot that looks free is tried.
  unfoldable pub take_free : ℕ → ℕ → Scan os.Kernel → ℕ → Bool × Scan os.Kernel
  take_free txn pid s idx =
      if (slot s.shared.slots idx).txn_id == 0 then take txn pid s idx else (false, s)

  unfoldable pub found :
      ℕ
      → (Scan os.Kernel → Bool × ℕ × Scan os.Kernel)
      → Bool × Scan os.Kernel
      → Bool × ℕ × Scan os.Kernel
  found idx rest (true, s) = (true, idx, s)
  found idx rest (false, s) = rest s

  -- One of the two loops, for `n` further rounds: whether it returned, and `idx` as it stands then.
  unfoldable pub pass :
      (Scan os.Kernel → ℕ → Bool × Scan os.Kernel)
      → ℕ
      → ℕ
      → ℕ
      → Scan os.Kernel
      → Bool × ℕ × Scan os.Kernel
  pass body max_slots zero idx s = (false, idx, s)
  pass body max_slots (suc n) idx s =
      found idx (λ t. pass body max_slots n ((idx + 1) % max_slots) t) (body s idx)

  unfoldable pub second_done : Bool × ℕ × Scan os.Kernel → Acquired × Scan os.Kernel
  second_done (true, idx, s) = (slot_index idx, s)
  second_done (false, idx, s) = (not_found s.first_undecided, s)

  unfoldable pub first_done : ℕ → ℕ → ℕ → Bool × ℕ × Scan os.Kernel → Acquired × Scan os.Kernel
  first_done txn pid max_slots (true, idx, s) = (slot_index idx, s)
  first_done txn pid max_slots (false, idx, s) =
      second_done (pass (take txn pid) max_slots max_slots idx s)

  -- `AcquireReaderSlot`
  unfoldable pub acquire_reader_slot :
      File → Shared os.Kernel → ℕ → ℕ → ℕ → Acquired × Scan os.Kernel
  acquire_reader_slot f sh hint txn pid =
      let s : Scan os.Kernel = record { file = f; shared = sh; first_undecided = none } in
      let max_slots = length sh.slots in
      if txn == 0 || not f.mapped || max_slots == 0
      then (panics, s)
      else first_done txn pid max_slots
          (pass (take_free txn pid) max_slots max_slots (hint % max_slots) s)

  -- The call of the release function that `take_hold` found.
  unfoldable pub drop_hold : File → Shared os.Kernel → ℕ → Shared os.Kernel
  drop_hold f sh idx = record sh { kernel = release sh.kernel (hold f.id) idx }

  -- `ReleaseReaderSlot`: its four acts, one after another
  pub release_reader_slot : File → Shared os.Kernel → ℕ → File × Shared os.Kernel
  unfolding take_hold zero_txn_id zero_pid
  release_reader_slot f sh idx =
      let taken_out = take_hold f idx in
      if not (taken_out.0)
      then (f, sh)
      else (taken_out.1, drop_hold f (zero_pid (zero_txn_id sh idx) idx) idx)

  -- `RaiseReaderSlotTxnID`; none where it panics
  unfoldable pub raise_reader_slot_txn_id :
      File → Shared os.Kernel → ℕ → ℕ → Option (Shared os.Kernel)
  raise_reader_slot_txn_id f sh idx txn =
      if not (has f.holds idx)
      then none
      else some
          (record sh { slots = set sh.slots idx (record (slot sh.slots idx) { txn_id = txn }) })

  -- its loop body behind the call of `tryProbe`
  unfoldable pub probed : File → Reap os.Kernel → ℕ → Locked × os.Kernel → Reap os.Kernel
  probed f r i (acquired, k) =
      let c = clear_stale r.shared.slots i in
      record r {
        shared = record { slots = c.0; kernel = release k (probe f.id) i };
        cleared = r.cleared + c.1;
      }
  probed f r i (slot_busy, k) = record r { shared = record (r.shared) { kernel = k } }
  probed f r i (undecided e, k) = record r {
    shared = record (r.shared) { kernel = k };
    undecided_probes = r.undecided_probes + 1;
  }

  -- one round of its loop
  unfoldable pub reap_one : File → ℕ → Reap os.Kernel → Reap os.Kernel
  reap_one f i r =
      if (slot r.shared.slots i).txn_id == 0 || has f.holds i
      then r
      else probed f r i (try r.shared.kernel (probe f.id) i)

  -- its loop, for `n` further rounds
  unfoldable pub reap_from : File → ℕ → ℕ → Reap os.Kernel → Reap os.Kernel
  reap_from f zero i r = r
  reap_from f (suc n) i r = reap_from f n (i + 1) (reap_one f i r)

  unfoldable pub reap_stale_reader_slots : File → Shared os.Kernel → Reap os.Kernel
  reap_stale_reader_slots f sh =
      let r : Reap os.Kernel = record { shared = sh; cleared = 0; undecided_probes = 0 } in
      if not f.mapped then r else reap_from f (length sh.slots) 0 r
