-- ===== src/Lock/Race.antt =====
-- A release and an acquisition through one handle (ReleaseReaderSlot and AcquireReaderSlot of
-- internal/lock/reader.go), interleaved: what the release does behind the acquisition. And a release alone.
use gmdb.Common.{
  ℕ, ◌<◌, Bool, true, false, ◌==◌, ==_self, if◌then◌else◌, Option, none, some, List, ◌∷◌, length,
  set, length-set, ◌≡◌, ◌∙◌, ap, refl,
}
use gmdb.Lock.Kernel.{RangeLocks, hold}
use gmdb.Lock.{
  ReaderSlot, free_slot, slot, has, put, remove, File, Shared, Scan, Locked, acquired, try, release,
  taken, publish, take, take_hold, zero_txn_id, zero_pid, drop_hold, release_reader_slot,
}
use gmdb.Lock.Locking.{locker, try-acquired, locker-release}
use gmdb.Lock.Steps.{
  World, file_of, become_with, give_back, clear_txn_id, clear_pid, unlock, Steps, here, then_step,
}
use gmdb.Lock.Ownership.{has-remove, slot-set}
use gmdb.Lock.Rounds.{has-put_self}

abbrev zeroed : List ReaderSlot → ℕ → List ReaderSlot
zeroed slots i = set slots i (record (slot slots i) { txn_id = 0 })

-- The transaction id behind the two stores.
stored_twice :
    (slots : List ReaderSlot) (i : ℕ)
    → i < length slots
    → (slot (set (zeroed slots i) i (record (slot (zeroed slots i) i) { pid = 0 })) i).txn_id ≡ 0
stored_twice slots i inside =
    let first = slot-set slots i i (record (slot slots i) { txn_id = 0 }) inside in
    let second =
      slot-set (zeroed slots i) i i (record (slot (zeroed slots i) i) { pid = 0 })
        (rw (length-set slots i (record (slot slots i) { txn_id = 0 })) inside) in
    rw (second, ==_self i, first) (rw (==_self i) refl)

module _ (os : RangeLocks) where
  -- ReleaseReaderSlot takes the entry out of the hold set, `take` of an AcquireReaderSlot through the same
  -- handle runs, and ReleaseReaderSlot goes on behind it.
  pub acquired_amid_release :
      File → Shared os.Kernel → ℕ → ℕ → ℕ → Option ℕ → File × Shared os.Kernel
  unfolding take_hold zero_txn_id zero_pid
  acquired_amid_release f sh i txn pid u =
      let s : Scan os.Kernel = record {
        file = (take_hold f i).1;
        shared = sh;
        first_undecided = u;
      } in
      let after = (take os txn pid s i).1 in
      (after.file, drop_hold os f (zero_pid (zero_txn_id after.shared i) i) i)

  -- `take` of slot `i` behind the deletion.
  take-granted :
      (f : File) (sh : Shared os.Kernel) (i txn pid : ℕ) (u : Option ℕ)
      → (try os sh.kernel (hold f.id) i).0 ≡ acquired
      → take os txn pid
          (record {
            file = record f { holds = remove f.holds i };
            shared = sh;
            first_undecided = u;
          })
          i
        ≡ (
          true,
          record {
            file = record f { holds = i ∷ remove f.holds i };
            shared = record {
              slots = set sh.slots i (record free_slot { txn_id = txn; pid = pid });
              kernel = (try os sh.kernel (hold f.id) i).1;
            };
            first_undecided = u;
          },
        )
  unfolding take taken publish put
  take-granted f sh i txn pid u granted =
      let out : has (remove f.holds i) i ≡ false = has-remove f.holds i i ∙ rw (==_self i) refl in
      rw out (
        ap
          (λ (l : Locked).
            taken os
              (record {
                file = record f { holds = remove f.holds i };
                shared = sh;
                first_undecided = u;
              })
              i txn pid (l, (try os sh.kernel (hold f.id) i).1))
          granted)

  abbrev amid : File → Shared os.Kernel → ℕ → ℕ → ℕ → File × Shared os.Kernel
  amid f sh i txn pid =
      let slots = set sh.slots i (record free_slot { txn_id = txn; pid = pid }) in
      (
        record f { holds = i ∷ remove f.holds i },
        record {
          slots = set (zeroed slots i) i (record (slot (zeroed slots i) i) { pid = 0 });
          kernel = release os (try os sh.kernel (hold f.id) i).1 (hold f.id) i;
        },
      )

  acquired_amid_release_lem :
      (f : File) (sh : Shared os.Kernel) (i txn pid : ℕ) (u : Option ℕ)
      → (try os sh.kernel (hold f.id) i).0 ≡ acquired
      → acquired_amid_release f sh i txn pid u ≡ amid f sh i txn pid
  unfolding acquired_amid_release take_hold zero_txn_id zero_pid drop_hold
  acquired_amid_release_lem f sh i txn pid u granted =
      ap
        (λ (r : Bool × Scan os.Kernel).
          (r.1.file, drop_hold os f (zero_pid (zero_txn_id r.1.shared i) i) i))
        (take-granted f sh i txn pid u granted)

  -- Where the kernel grants the handle the lock of a slot of the table again, as the slot's lock is still
  -- its own, an AcquireReaderSlot that tries the slot right behind the deletion by a ReleaseReaderSlot
  -- through the same handle has it in the hold set at the end; the rest of the release has then set the
  -- slot's transaction id to 0 and dropped its lock.
  pub release_race :
      (f : File) (sh : Shared os.Kernel) (i txn pid : ℕ) (u : Option ℕ)
      → i < length sh.slots
      → (try os sh.kernel (hold f.id) i).0 ≡ acquired
      → (has (acquired_amid_release f sh i txn pid u).0.holds i ≡ true)
        × ((slot (acquired_amid_release f sh i txn pid u).1.slots i).txn_id ≡ 0)
        × (locker os (acquired_amid_release f sh i txn pid u).1.kernel i ≡ none)
  release_race f sh i txn pid u inside granted =
      let k = (try os sh.kernel (hold f.id) i).1 in
      let mine : locker os k i ≡ some (hold f.id) =
        try-acquired os sh.kernel (hold f.id) i i granted ∙ rw (==_self i) refl in
      rw (acquired_amid_release_lem f sh i txn pid u granted) (
        has-put_self (remove f.holds i) i,
        stored_twice _ i (rw (length-set sh.slots i _) inside),
        locker-release os k (hold f.id) i i mine ∙ rw (==_self i) refl,
      )

  -- Run alone, ReleaseReaderSlot of a slot in the hold set is four of the acts of Lock/Steps.
  release_reader_slot-Steps :
      (w : World os.Kernel) (f i : ℕ)
      → has (w.holds f) i ≡ true
      → (v : World os.Kernel) × Steps os w v
        × (v.shared ≡ (release_reader_slot os (file_of w f) w.shared i).1)
        × (v.holds f ≡ (release_reader_slot os (file_of w f) w.shared i).0.holds)
  unfolding release_reader_slot take_hold zero_txn_id zero_pid drop_hold file_of become_with put
  release_reader_slot-Steps w f i held =
      let own : (f == f) ≡ true = ==_self f in
      let a = become_with w f (remove (w.holds f) i) (put (w.releasing f) i) w.shared in
      let begun : has (if f == f then i ∷ w.releasing f else w.releasing f) i ≡ true =
        rw own (has-put_self (w.releasing f) i) in
      let b : World os.Kernel = record a { shared = zero_txn_id a.shared i } in
      let c : World os.Kernel = record b { shared = zero_pid b.shared i } in
      (
        _,
        then_step
            (then_step
              (then_step (then_step here (give_back w f i held)) (clear_txn_id a f i begun))
              (clear_pid b f i begun))
            (unlock c f i begun),
        rw held refl,
        rw (held, own) refl,
      )
