-- ===== src/Lock/Steps.antt =====
-- The users of the reader table (internal/lock/reader.go): any number of handles, in any processes, each
-- of which at any time tries a slot, does one of the four acts of a release, raises a slot of its own,
-- judges a slot, or dies. A handle here does not try a slot that it is itself still releasing: the code
-- has no such guard, and Lock/Race is what becomes of a run without it.
use gmdb.Common.{
  ℕ, ◌<◌, Bool, true, false, not, ◌&&◌, ◌==◌, ◌||◌, if◌then◌else◌, Option, some, List, [], length,
  replicate, ◌≡◌,
}
use gmdb.Lock.Kernel.{RangeLocks, hold, probe}
use gmdb.Lock.{
  Shared, File, Scan, Reap, free_slot, has, put, remove, take, take_hold, zero_txn_id, zero_pid,
  drop_hold, raise_reader_slot_txn_id, probed, try,
}

-- The mapping, the hold set of each handle, and the slots whose release it has begun.
pub record World (K : Type 0) : Type 0 where
  pub shared : Shared K
  pub holds : ℕ → List ℕ
  pub releasing : ℕ → List ℕ

module _ {K : Type 0} where
  unfoldable pub file_of : World K → ℕ → File
  file_of w f = record { id = f; mapped = true; holds = w.holds f }

  -- The world behind what handle `f` did.
  unfoldable pub become : World K → ℕ → List ℕ → Shared K → World K
  become w f holds sh = record w { shared = sh; holds = λ g. if g == f then holds else w.holds g }

  unfoldable pub become_with : World K → ℕ → List ℕ → List ℕ → Shared K → World K
  become_with w f holds releasing sh = record {
    shared = sh;
    holds = λ g. if g == f then holds else w.holds g;
    releasing = λ g. if g == f then releasing else w.releasing g;
  }

  -- Handle `f` has slot `i`, or is still releasing it.
  unfoldable pub owns : World K → ℕ → ℕ → Bool
  owns w f i = has (w.holds f) i || has (w.releasing f) i

module _ (os : RangeLocks) where
  unfoldable pub scan_of : World os.Kernel → ℕ → Option ℕ → Scan os.Kernel
  unfolding file_of
  scan_of w f u = record { file = file_of w f; shared = w.shared; first_undecided = u }

  unfoldable pub reap_of : World os.Kernel → ℕ → ℕ → Reap os.Kernel
  reap_of w cleared undecided_probes = record {
    shared = w.shared;
    cleared = cleared;
    undecided_probes = undecided_probes;
  }

  unfoldable pub after_scan : World os.Kernel → ℕ → Scan os.Kernel → World os.Kernel
  unfolding become
  after_scan w f s = become w f s.file.holds s.shared

  -- One act: one try of AcquireReaderSlot, one of the acts of ReleaseReaderSlot (in the code's order or any
  -- other behind the first), RaiseReaderSlotTxnID to a transaction id
  -- that is not the free sentinel, the probe of one slot by ReapStaleReaderSlots, whatever the two tests
  -- in front of it saw earlier, or the exit of a process.
  pub data Step : World os.Kernel → World os.Kernel → Type 0 where
    try_slot :
        (w : World os.Kernel) (f i txn pid : ℕ) (u : Option ℕ)
        → 0 < txn
        → i < length w.shared.slots
        → has (w.releasing f) i ≡ false
        → Step w (after_scan w f (take os txn pid (scan_of w f u) i).1)
    give_back :
        (w : World os.Kernel) (f i : ℕ)
        → (take_hold (file_of w f) i).0 ≡ true
        → Step w
            (become_with w f (take_hold (file_of w f) i).1.holds (put (w.releasing f) i) w.shared)
    clear_txn_id :
        (w : World os.Kernel) (f i : ℕ)
        → has (w.releasing f) i ≡ true
        → Step w (record w { shared = zero_txn_id w.shared i })
    clear_pid :
        (w : World os.Kernel) (f i : ℕ)
        → has (w.releasing f) i ≡ true
        → Step w (record w { shared = zero_pid w.shared i })
    unlock :
        (w : World os.Kernel) (f i : ℕ)
        → has (w.releasing f) i ≡ true
        → Step w (
            become_with w f
              (w.holds f)
              (remove (w.releasing f) i)
              (drop_hold os (file_of w f) w.shared i))
    raise :
        (w : World os.Kernel) (f i txn : ℕ) (sh : Shared os.Kernel)
        → 0 < txn
        → raise_reader_slot_txn_id os (file_of w f) w.shared i txn ≡ some sh
        → Step w (record w { shared = sh })
    judge :
        (w : World os.Kernel) (f i cleared undecided_probes : ℕ)
        → i < length w.shared.slots
        → Step w (record w {
          shared =
              (probed os
                (file_of w f)
                (reap_of w cleared undecided_probes)
                i
                (try os w.shared.kernel (probe f) i)).shared;
        })
    die :
        (w : World os.Kernel) (f : ℕ)
        → Step w (
            become_with w f [] [] (record (w.shared) {
              kernel = os.close (os.close w.shared.kernel (hold f)) (probe f);
            }))

  pub data Steps (w : World os.Kernel) : World os.Kernel → Type 0 where
    here : Steps w w
    then_step : {u v : World os.Kernel} → Steps w u → Step u v → Steps w v

  -- The step does not begin handle `f`'s own release of slot `i`, nor raise it, nor is it `f`'s death.
  unfoldable pub spares : {w v : World os.Kernel} → Step w v → ℕ → ℕ → Bool
  spares (try_slot w g j txn pid u pos inside idle) f i = true
  spares (give_back w g j held) f i = not (g == f && j == i)
  spares (clear_txn_id w g j begun) f i = true
  spares (clear_pid w g j begun) f i = true
  spares (unlock w g j begun) f i = true
  spares (raise w g j txn sh pos done) f i = not (g == f && j == i)
  spares (judge w g j c u inside) f i = true
  spares (die w g) f i = not (g == f)

  -- A table of `n` free slots, and handles that hold none of them.
  unfoldable pub fresh : os.Kernel → ℕ → World os.Kernel
  fresh k n = record {
    shared = record { slots = replicate n free_slot; kernel = k };
    holds = λ f. [];
    releasing = λ f. [];
  }
