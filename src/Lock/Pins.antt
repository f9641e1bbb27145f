-- ===== src/Lock/Pins.antt =====
-- What a live reader has published stays until it acts itself (internal/lock/reader.go).
use gmdb.Common.{
  ℕ, ◌<◌, Bool, true, false, not, ◌==◌, ◌&&◌, ==_iff, Bool-cases, if◌then◌else◌, ◌||◌, Option, none,
  some, List, length, set, ◌≡◌, ◌≢◌, ◌∙◌, ◌⊎◌, inl, inr, refl, sym, ap, arith,
}
use gmdb.Lock.Kernel.{RangeLocks, hold}
use gmdb.Lock.{
  ReaderSlot, free_slot, slot, has, remove, Shared, File, Scan, Reap, take_hold, zero_txn_id,
  zero_pid, drop_hold, put, raise_reader_slot_txn_id,
}
use gmdb.Lock.Locking.{locker}
use gmdb.Lock.Effects.{
  TakeEffect, refused, won, take_effect, ProbeEffect, kept, judged, probe_effect,
}
use gmdb.Lock.Steps.{
  World, file_of, become_with, scan_of, reap_of, after_scan, Step, try_slot, give_back,
  clear_txn_id, clear_pid, unlock, raise, judge, die, Steps, spares, fresh,
}
use gmdb.Lock.Ownership.{
  IsOwned, slot-set, has-probed, held-or, released-or, or-false, some_hold_inj, fresh-IsOwned,
}
use gmdb.Lock.Trying.{has-become_same, clear_stale-slot, has-put_other}
use gmdb.Lock.Holding.{raised_lem, has-remove_other, replaced, has-if, not_held}
use gmdb.Lock.Safety.{Steps-IsOwned}

module _ {K : Type 0} where
  -- Handle `f` has slot `i` in `v` as in `w`, and its content is the same.
  abbrev pub Stays : World K → World K → ℕ → ℕ → Type 0
  Stays w v f i = (has (v.holds f) i ≡ true) × (slot v.shared.slots i ≡ slot w.shared.slots i)

spared_cases :
    (g f j i : ℕ) → not (g == f && j == i) ≡ true → ((j == i) ≡ false) ⊎ ((j ≡ i) × (g ≢ f))
spared_cases g f j i h = ground arith

module _ (os : RangeLocks) where
  -- A held slot is not free for another.
  not_free :
      (w : World os.Kernel) (f g i : ℕ)
      → IsOwned os w
      → has (w.holds f) i ≡ true
      → has (w.holds g) i ≡ false
      → has (w.releasing g) i ≡ false
      → ¬ ((locker os w.shared.kernel i ≡ none) ⊎ (locker os w.shared.kernel i ≡ some (hold g)))
  unfolding IsOwned
  not_free w f g i own held out idle (inl un) = cc (un, (own i).locked f (held-or _ _ held))
  not_free w f g i own held out idle (inr self) =
      let mine : (has (w.holds g) i || has (w.releasing g) i) ≡ true = (own i).owned g self in
      ground (arith, out, idle)

  take-Stays :
      (w : World os.Kernel) (f i g j txn pid : ℕ) (u : Option ℕ) (r : Bool × Scan os.Kernel)
      → IsOwned os w
      → j < length w.shared.slots
      → has (w.holds f) i ≡ true
      → has (w.releasing g) j ≡ false
      → TakeEffect os txn pid (scan_of os w g u) j r
      → Stays w (after_scan os w g r.1) f i
  unfolding scan_of file_of after_scan
  take-Stays w f i g j txn pid u r own inside held idle (refused out fe se le why fault) = (
    has-become_same w g f _ r.1.shared i (ap (λ (x : File). has x.holds i) fe) ∙ held,
    ap (λ (x : List ReaderSlot). slot x i) se,
  )
  take-Stays w f i g j txn pid u r own inside held idle (won in_ out free fe se le) =
      elim (Bool-cases (j == i)) [
        | inl same ↦ absurd (not_free w f g j own (rw ((==_iff j i).0 same) held) out idle free)
        | inr other ↦ (
          has-become_same w g f _ r.1.shared i
                (ap (λ (x : File). has x.holds i) fe ∙ has-put_other (w.holds g) j i other)
              ∙ held,
          ap (λ (x : List ReaderSlot). slot x i) se
              ∙ slot-set w.shared.slots j i (record free_slot { txn_id = txn; pid = pid }) inside
              ∙ rw other refl,
        )
      ]

  probe-Stays :
      (w : World os.Kernel) (f i g j c u : ℕ) (r : Reap os.Kernel)
      → IsOwned os w
      → j < length w.shared.slots
      → has (w.holds f) i ≡ true
      → ProbeEffect os (file_of w g) j (reap_of os w c u) r
      → Stays w (record w { shared = r.shared }) f i
  unfolding IsOwned reap_of file_of
  probe-Stays w f i g j c u r own inside held (kept se le ce why) =
      (held, ap (λ (x : List ReaderSlot). slot x i) se)
  probe-Stays w f i g j c u r own inside held (judged se free le ce ue) =
      elim (Bool-cases (j == i)) [
        | inl same ↦ cc (
          held,
          (or-false (has (w.holds f) i) (has (w.releasing f) i)
              (has-probed g f (own i) (rw (sym ((==_iff j i).0 same)) free))).0,
        )
        | inr other ↦ (
          held,
          ap (λ (x : List ReaderSlot). slot x i) se
              ∙ clear_stale-slot w.shared.slots j i inside other,
        )
      ]

  one_owner :
      (w : World os.Kernel) (f g i : ℕ)
      → IsOwned os w
      → has (w.holds f) i ≡ true
      → has (w.holds g) i ≡ true
      → g ≡ f
  unfolding IsOwned
  one_owner w f g i own held also =
      some_hold_inj g f
        (sym ((own i).locked g (held-or _ _ also)) ∙ (own i).locked f (held-or _ _ held))

  -- The hold set of `f` keeps `i` where `g` begins to release another slot.
  give_back-Stays :
      (w : World os.Kernel) (f i g j : ℕ)
      → IsOwned os w
      → has (w.holds g) j ≡ true
      → not (g == f && j == i) ≡ true
      → has (w.holds f) i ≡ true
      → has (if f == g then remove (w.holds g) j else w.holds f) i ≡ true
  unfolding IsOwned
  give_back-Stays w f i g j own theirs spared held = elim (spared_cases g f j i spared) [
    | inl other ↦
        has-if (f == g) _ _ i
        ∙ replaced w.holds g f i (remove (w.holds g) j) (has-remove_other (w.holds g) j i other)
        ∙ held
    | inr (same, apart) ↦ absurd (apart (one_owner w f g i own held (rw (sym same) theirs)))
  ]

  stored-Stays :
      (w : World os.Kernel) (f i g j : ℕ) (s : ReaderSlot)
      → IsOwned os w
      → has (w.releasing g) j ≡ true
      → has (w.holds f) i ≡ true
      → Stays w (record w { shared = record (w.shared) { slots = set w.shared.slots j s } }) f i
  unfolding IsOwned
  stored-Stays w f i g j s own begun held = elim (Bool-cases (j == i)) [
    | inl same ↦ cc (held, not_held os w g f j own begun, (==_iff j i).0 same)
    | inr other ↦ (
      held,
      slot-set w.shared.slots j i s ((own j).inside g (released-or _ _ begun)) ∙ rw other refl,
    )
  ]

  raise-Stays :
      (w : World os.Kernel) (f i g j txn : ℕ) (sh : Shared os.Kernel)
      → IsOwned os w
      → not (g == f && j == i) ≡ true
      → has (w.holds f) i ≡ true
      → raise_reader_slot_txn_id os (file_of w g) w.shared j txn ≡ some sh
      → Stays w (record w { shared = sh }) f i
  unfolding IsOwned file_of
  raise-Stays w f i g j txn sh own spared held e =
      let (theirs, es, ek) = raised_lem os (file_of w g) w.shared j txn sh e in
      elim (spared_cases g f j i spared) [
        | inl other ↦ (
          held,
          ap (λ (x : List ReaderSlot). slot x i) es
              ∙ slot-set w.shared.slots j i _ ((own j).inside g (held-or _ _ theirs))
              ∙ rw other refl,
        )
        | inr (same, apart) ↦ absurd (apart (one_owner w f g i own held (rw (sym same) theirs)))
      ]

  Step-Stays :
      (f i : ℕ) {w v : World os.Kernel} (st : Step os w v)
      → IsOwned os w
      → spares os st f i ≡ true
      → has (w.holds f) i ≡ true
      → Stays w v f i
  unfolding spares reap_of file_of become_with take_hold zero_txn_id zero_pid drop_hold put has
  Step-Stays f i (try_slot w g j txn pid u pos inside idle) own spared held =
      take-Stays w f i g j txn pid u _ own inside held idle
        (take_effect os txn pid (scan_of os w g u) j)
  Step-Stays f i (give_back w g j theirs) own spared held =
      (give_back-Stays w f i g j own theirs spared held, refl)
  Step-Stays f i (clear_txn_id w g j begun) own spared held =
      stored-Stays w f i g j _ own begun held
  Step-Stays f i (clear_pid w g j begun) own spared held = stored-Stays w f i g j _ own begun held
  Step-Stays f i (unlock w g j begun) own spared held =
      (has-if (f == g) _ _ i ∙ replaced w.holds g f i (w.holds g) refl ∙ held, refl)
  Step-Stays f i (raise w g j txn sh pos e) own spared held =
      raise-Stays w f i g j txn sh own spared held e
  Step-Stays f i (judge w g j c u inside) own spared held =
      probe-Stays w f i g j c u _ own inside held
        (probe_effect os (file_of w g) (reap_of os w c u) j)
  Step-Stays f i (die w g) own spared held = (ground arith, refl)

  -- In every world that handles reach from a table of free slots, provided that no handle tries a slot
  -- that it is itself still releasing, any such act but the handle's own release or raise of that slot
  -- and its death leaves a slot that a handle has in its hold set there, with its content.
  pub spared_pin_stays :
      (k : os.Kernel) (n : ℕ) (w v : World os.Kernel) (f i : ℕ) (st : Step os w v)
      → ((j : ℕ) → locker os k j ≡ none)
      → Steps os (fresh os k n) w
      → spares os st f i ≡ true
      → has (w.holds f) i ≡ true
      → (has (v.holds f) i ≡ true) × (slot v.shared.slots i ≡ slot w.shared.slots i)
  spared_pin_stays k n w v f i st unlocked run spared held =
      Step-Stays f i st (Steps-IsOwned os run (fresh-IsOwned os k n unlocked)) spared held
