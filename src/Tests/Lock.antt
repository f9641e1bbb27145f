-- ===== src/Tests/Lock.antt =====
-- internal/lock/reader.go at concrete runs.
use gmdb.Common.{ℕ, ◌+◌, ◌≤◌, ◌<◌, true, none, some, [], ◌≡◌, refl, arith, length}
use gmdb.Lock.Kernel.{hold, probe}
use gmdb.Lock.{
  slot, has, free_slot, acquire_reader_slot, reap_stale_reader_slots, oldest_reader_txn_id,
  slot_index, readers_full, count_active_readers, take, Acquired, Scan, Reap, no_reader_txn_id,
}
use gmdb.Lock.Locking.{locker}
use gmdb.Lock.Steps.{
  World, Steps, here, then_step, try_slot, die, fresh, after_scan, become, become_with, scan_of,
  file_of, spares,
}
use gmdb.Lock.Safety.{live_pin_counts}
use gmdb.Lock.Pins.{spared_pin_stays}
use gmdb.Lock.Oldest.{oldest_reader_txn_id_lem, WordIds, Attained}
use gmdb.Lock.Rounds.{Live}
use gmdb.Lock.Reaper.{reap_stale_reader_slots_lem}
use gmdb.Tests.Locks.{locks, unlocked, no_locks, Table}

-- Two slots. Handle 0 reads at transaction 5, handle 1 at 7; then handle 0's process dies.
abbrev start : World Table
start = fresh locks unlocked 2

abbrev one_reader : World Table
one_reader = after_scan locks start 0 (take locks 5 100 (scan_of locks start 0 none) 0).1

abbrev two_readers : World Table
two_readers = after_scan locks one_reader 1 (take locks 7 200 (scan_of locks one_reader 1 none) 1).1

abbrev residue : World Table
residue = become_with two_readers 0 [] [] (record (two_readers.shared) {
  kernel = locks.close (locks.close two_readers.shared.kernel (hold 0)) (probe 0);
})

reads : Steps locks start two_readers
unfolding fresh after_scan become become_with take has scan_of gmdb.Lock.taken gmdb.Lock.try
    gmdb.Lock.verdict gmdb.Lock.publish gmdb.Lock.put gmdb.Lock.slot_range_off
reads =
    then_step (then_step here (try_slot start 0 0 5 100 none (omega arith) (omega arith) refl))
      (try_slot one_reader 1 1 7 200 none (omega arith) (omega arith) refl)

reads_residue : Steps locks start residue
reads_residue = then_step reads (die two_readers 0)

residue_words : WordIds residue.shared.slots
unfolding fresh after_scan become become_with take has scan_of gmdb.Lock.taken gmdb.Lock.try
    gmdb.Lock.verdict gmdb.Lock.publish gmdb.Lock.put gmdb.Lock.slot_range_off slot file_of
residue_words = omega arith

held_by_1 : has (residue.holds 1) 1 ≡ true
unfolding fresh after_scan become become_with take has scan_of gmdb.Lock.taken gmdb.Lock.try
    gmdb.Lock.verdict gmdb.Lock.publish gmdb.Lock.put gmdb.Lock.slot_range_off slot file_of
held_by_1 = refl

-- Handle 1's pin of transaction 7 holds after handle 0's death.
live_pin_counts_example :
    (locker locks residue.shared.kernel 1 ≡ some (hold 1))
    × ((g : ℕ) → has (residue.holds g) 1 ≡ true → g ≡ 1)
    × (0 < (slot residue.shared.slots 1).txn_id)
    × ((g : ℕ)
        → oldest_reader_txn_id (file_of residue g) residue.shared
          ≤ (slot residue.shared.slots 1).txn_id)
live_pin_counts_example =
    live_pin_counts locks unlocked 2 residue 1 1 no_locks reads_residue residue_words held_by_1

spared : spares locks (die two_readers 0) 1 1 ≡ true
unfolding spares
spared = refl

also_held : has (two_readers.holds 1) 1 ≡ true
unfolding fresh after_scan become become_with take has scan_of gmdb.Lock.taken gmdb.Lock.try
    gmdb.Lock.verdict gmdb.Lock.publish gmdb.Lock.put gmdb.Lock.slot_range_off slot file_of
also_held = refl

spared_pin_stays_example :
    (has (residue.holds 1) 1 ≡ true)
    × (slot residue.shared.slots 1 ≡ slot two_readers.shared.slots 1)
spared_pin_stays_example =
    spared_pin_stays locks unlocked 2 two_readers residue 1 1 (die two_readers 0) no_locks reads
      spared also_held

oldest_reader_txn_id_lem_example :
    ((i : ℕ)
      → 0 < (slot residue.shared.slots i).txn_id
      → oldest_reader_txn_id (file_of residue 1) residue.shared
        ≤ (slot residue.shared.slots i).txn_id)
    × (count_active_readers residue.shared.slots ≡ 0
        → oldest_reader_txn_id (file_of residue 1) residue.shared ≡ no_reader_txn_id)
    × (0 < count_active_readers residue.shared.slots
        → Attained residue.shared.slots (oldest_reader_txn_id (file_of residue 1) residue.shared))
unfolding file_of
oldest_reader_txn_id_lem_example =
    oldest_reader_txn_id_lem (file_of residue 1) residue.shared refl residue_words

oldest_is_5 : oldest_reader_txn_id (file_of residue 1) residue.shared ≡ 5
unfolding oldest_reader_txn_id fresh after_scan become become_with take has scan_of gmdb.Lock.taken
    gmdb.Lock.try gmdb.Lock.verdict gmdb.Lock.publish gmdb.Lock.put gmdb.Lock.slot_range_off slot
    file_of
oldest_is_5 = refl

abbrev third : Acquired × Scan Table
third = acquire_reader_slot locks (file_of residue 2) residue.shared 1 9 300

-- Handle 2 takes the dead handle's slot over.
takes_over : third.0 ≡ slot_index 0
unfolding acquire_reader_slot gmdb.Lock.first_done gmdb.Lock.pass gmdb.Lock.found
    gmdb.Lock.take_free gmdb.Lock.second_done fresh after_scan become become_with take has scan_of
    gmdb.Lock.taken gmdb.Lock.try gmdb.Lock.verdict gmdb.Lock.publish gmdb.Lock.put
    gmdb.Lock.slot_range_off slot file_of
takes_over = refl

abbrev reaped : Reap Table
reaped = reap_stale_reader_slots locks (file_of residue 1) residue.shared

-- The dead handle's slot is cleared, and only that.
reaps_one : reaped.cleared ≡ 1
unfolding reap_stale_reader_slots gmdb.Lock.reap_from gmdb.Lock.reap_one gmdb.Lock.probed
    gmdb.Lock.clear_stale fresh after_scan become become_with take has scan_of gmdb.Lock.taken
    gmdb.Lock.try gmdb.Lock.verdict gmdb.Lock.publish gmdb.Lock.put gmdb.Lock.slot_range_off slot
    file_of
reaps_one = refl

reap_stale_reader_slots_lem_example :
    ((i : ℕ) → Live residue i → slot reaped.shared.slots i ≡ slot residue.shared.slots i)
    × (reaped.undecided_probes ≡ 0
        → (i : ℕ) → i < length residue.shared.slots
        → 0 < (slot reaped.shared.slots i).txn_id
        → Live residue i)
    × (count_active_readers reaped.shared.slots + reaped.cleared
        ≡ count_active_readers residue.shared.slots)
reap_stale_reader_slots_lem_example =
    reap_stale_reader_slots_lem locks unlocked 2 residue 1 no_locks reads_residue
