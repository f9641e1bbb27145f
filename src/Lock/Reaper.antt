-- ===== src/Lock/Reaper.antt =====
-- ReapStaleReaderSlots of internal/lock/reader.go.
use gmdb.Common.{
  ℕ, zero, suc, ◌+◌, ◌<◌, false, ◌==◌, ==_iff, ==_self, Bool-cases, if◌then◌else◌, none, List, [],
  ◌∷◌, length, set, ◌≡◌, ◌∙◌, ◌⊎◌, inl, inr, refl, sym, ap, arith,
}
use mathlib.Core.Path.{subst}
use native.Mathlib.Decide.{dec_lt}
use gmdb.Lock.Kernel.{RangeLocks, probe}
use gmdb.Lock.{
  ReaderSlot, slot, has, Reap, clear_stale, reap_one, reap_from, reap_stale_reader_slots,
  count_active_readers,
}
use gmdb.Lock.Locking.{locker}
use gmdb.Lock.Effects.{ProbeEffect, kept, judged, probe_effect, Free}
use gmdb.Lock.Steps.{World, file_of, reap_of, owns, Steps, fresh}
use gmdb.Lock.Ownership.{IsOwned, slot-set, fresh-IsOwned, held-or, has-probed}
use gmdb.Lock.Safety.{Steps-IsOwned}
use gmdb.Lock.Trying.{probe-IsOwned, clear_stale-slot, clear_stale-length}
use gmdb.Lock.Rounds.{Live, busy-Live}

count-cleared :
    (slots : List ReaderSlot) (i : ℕ) (s : ReaderSlot)
    → i < length slots
    → ((slot slots i).txn_id == 0) ≡ false
    → s.txn_id ≡ 0
    → count_active_readers (set slots i s) + 1 ≡ count_active_readers slots
unfolding count_active_readers slot
count-cleared [] i s inside used free = absurd (omega arith)
count-cleared (t ∷ slots) zero s inside used free = rw (used, free) (omega arith)
count-cleared (t ∷ slots) (suc i) s inside used free =
    omega (arith, count-cleared slots i s (omega arith) used free)

none_failed : {A : Type 0} {a b : ℕ} → ((A × (b ≡ a)) ⊎ (b ≡ a + 1)) → b ≡ 0 → a ≡ 0
none_failed (inl (x, same)) e = sym same ∙ e
none_failed (inr more) e = omega arith

id_at_self :
    (i : ℕ) (s : ReaderSlot) → (if i == i then record s { txn_id = 0; pid = 0 } else s).txn_id ≡ 0
id_at_self i s = rw (==_self i) refl

-- What the clear leaves in the slot, and in the count.
clear_stale_lem :
    (slots : List ReaderSlot) (i : ℕ)
    → i < length slots
    → ((slot (clear_stale slots i).0 i).txn_id ≡ 0)
      × (count_active_readers (clear_stale slots i).0 + (clear_stale slots i).1
          ≡ count_active_readers slots)
unfolding clear_stale
clear_stale_lem slots i inside = elim (Bool-cases ((slot slots i).txn_id == 0)) [
  | inl unused ↦ rw unused ((==_iff _ 0).0 unused, omega arith)
  | inr used ↦ rw used (
    ap (λ (x : ReaderSlot). x.txn_id)
          (slot-set slots i i (record (slot slots i) { txn_id = 0; pid = 0 }) inside)
        ∙ id_at_self i (slot slots i),
    count-cleared slots i (record (slot slots i) { txn_id = 0; pid = 0 }) inside used refl,
  )
]

module _ (os : RangeLocks) where
  abbrev at_reap : World os.Kernel → Reap os.Kernel → World os.Kernel
  at_reap w r = record w { shared = r.shared }

  -- The reaper before round `i`.
  record Reaped (w : World os.Kernel) (i : ℕ) (r : Reap os.Kernel) : Type 0 where
    is_owned : IsOwned os (at_reap w r)
    size : length r.shared.slots ≡ length w.shared.slots
    live : (j : ℕ) → Live w j → slot r.shared.slots j ≡ slot w.shared.slots j
    stale : r.undecided_probes ≡ 0 → (j : ℕ) → j < i → 0 < (slot r.shared.slots j).txn_id → Live w j
    count : count_active_readers r.shared.slots + r.cleared ≡ count_active_readers w.shared.slots

  -- The slot of a live handle is not the one whose probe succeeds.
  not_judged :
      (w : World os.Kernel) (f i j : ℕ) (r : Reap os.Kernel)
      → Live w j
      → IsOwned os (at_reap w r)
      → Free os r.shared.kernel (probe f) i
      → (i == j) ≡ false
  unfolding IsOwned owns
  not_judged w f i j r (g, held) own free = elim (Bool-cases (i == j)) [
    | inr other ↦ other
    | inl same ↦
        let none_here = has-probed f g (own i) free in
        let at : i ≡ j = (==_iff i j).0 same in cc (held, none_here, at)
  ]

  -- One more slot has been passed over.
  passed_over :
      (w : World os.Kernel) (i : ℕ) (r : Reap os.Kernel)
      → Reaped w i r
      → (r.undecided_probes ≡ 0 → 0 < (slot r.shared.slots i).txn_id → Live w i)
      → Reaped w (i + 1) r
  passed_over w i r inv here_too = record {
    is_owned = inv.is_owned;
    size = inv.size;
    live = inv.live;
    stale = λ e j lt pos. elim (dec_lt j i) [
      | yes before ↦ inv.stale e j before pos
      | no last ↦ let at : j ≡ i = omega arith in rw at (here_too e (rw (sym at) pos))
    ];
    count = inv.count;
  }

  probed_lem :
      (w : World os.Kernel) (f i : ℕ) (r t : Reap os.Kernel)
      → i < length w.shared.slots
      → Reaped w i r
      → ProbeEffect os (file_of w f) i r t
      → Reaped w (i + 1) t
  unfolding file_of reap_of owns
  probed_lem w f i r t inside inv (kept se le ce why) =
      let still : Reaped w i t = record {
        is_owned =
            probe-IsOwned os (at_reap w r) f i r.cleared r.undecided_probes t (rw (inv.size) inside)
              (kept se le ce why) inv.is_owned;
        size = ap length se ∙ inv.size;
        live = λ j l. ap (λ (x : List ReaderSlot). slot x j) se ∙ inv.live j l;
        stale = λ e j lt pos. inv.stale (none_failed why e) j lt (rw (sym se) pos);
        count = rw (se, ce) inv.count;
      } in
      passed_over w i t still (λ e pos. elim why [
        | inl ((d, locked, other), same) ↦ busy-Live os (at_reap w r) i d inv.is_owned locked
        | inr failed_too ↦ absurd (omega arith)
      ])
  probed_lem w f i r t inside inv (judged se free le ce ue) =
      let here_too : i < length r.shared.slots = rw (inv.size) inside in
      let (gone, counted) = clear_stale_lem r.shared.slots i here_too in
      record {
        is_owned =
            probe-IsOwned os (at_reap w r) f i r.cleared r.undecided_probes t here_too
              (judged se free le ce ue) inv.is_owned;
        size = ap length se ∙ clear_stale-length r.shared.slots i ∙ inv.size;
        live = λ j l.
            ap (λ (x : List ReaderSlot). slot x j) se
            ∙ clear_stale-slot r.shared.slots i j here_too
                (not_judged w f i j r l inv.is_owned free)
            ∙ inv.live j l;
        stale = λ e j lt pos. elim (Bool-cases (i == j)) [
          | inl same ↦ absurd (
              omega (
                arith,
                gone,
                ap (λ (x : List ReaderSlot). (slot x i).txn_id) se,
                ap (λ (n : ℕ). (slot t.shared.slots n).txn_id) ((==_iff i j).0 same),
              ))
          | inr other ↦
              let apart : ¬ (i ≡ j) = λ h. cc (other, (==_iff i j).1 h) in
              let left =
                ap (λ (x : List ReaderSlot). (slot x j).txn_id) se
                ∙ ap (λ (x : ReaderSlot). x.txn_id)
                    (clear_stale-slot r.shared.slots i j here_too other) in
              inv.stale (sym ue ∙ e) j (omega (arith, apart)) (omega (arith, left))
        ];
        count = rw (se, ce) (omega (arith, counted, inv.count));
      }

  reap_one_lem :
      (w : World os.Kernel) (f i : ℕ) (r : Reap os.Kernel)
      → i < length w.shared.slots
      → Reaped w i r
      → Reaped w (i + 1) (reap_one os (file_of w f) i r)
  unfolding reap_one file_of owns
  reap_one_lem w f i r inside inv = elim (Bool-cases ((slot r.shared.slots i).txn_id == 0)) [
    | inl unused ↦
        rw unused (passed_over w i r inv (λ e pos. absurd (omega (arith, (==_iff _ 0).0 unused))))
    | inr used ↦ elim (Bool-cases (has (w.holds f) i)) [
      | inl held ↦ rw (used, held) (passed_over w i r inv (λ e pos. (f, held-or _ _ held)))
      | inr out ↦
          rw (used, out) (probed_lem w f i r _ inside inv (probe_effect os (file_of w f) r i))
    ]
  ]

  reap_from_lem :
      (w : World os.Kernel) (f n i : ℕ) (r : Reap os.Kernel)
      → i + n ≡ length w.shared.slots
      → Reaped w i r
      → Reaped w (length w.shared.slots) (reap_from os (file_of w f) n i r)
  unfolding reap_from
  reap_from_lem w f zero i r e inv =
      let all : i ≡ length w.shared.slots = omega arith in subst (λ (m : ℕ). Reaped w m r) all inv
  reap_from_lem w f (suc n) i r e inv =
      reap_from_lem w f n (i + 1) (reap_one os (file_of w f) i r) (omega arith)
        (reap_one_lem w f i r (omega arith) inv)

  -- Called in a world that handles reach from a table of free slots, provided that no handle tries a slot
  -- that it is itself still releasing, and run with no other act in between, ReapStaleReaderSlots leaves
  -- every slot that a handle has in its hold set or is releasing as it was; where no probe was undecided,
  -- each slot that is still occupied is in some handle's hold set or being released by it; and the number
  -- of slots it reports cleared is that of those that CountActiveReaders no longer counts.
  pub reap_stale_reader_slots_lem :
      (k : os.Kernel) (n : ℕ) (w : World os.Kernel) (f : ℕ)
      → ((j : ℕ) → locker os k j ≡ none)
      → Steps os (fresh os k n) w
      → ((i : ℕ)
          → Live w i
          → slot (reap_stale_reader_slots os (file_of w f) w.shared).shared.slots i
            ≡ slot w.shared.slots i)
        × ((reap_stale_reader_slots os (file_of w f) w.shared).undecided_probes ≡ 0
            → (i : ℕ) → i < length w.shared.slots
            → 0 < (slot (reap_stale_reader_slots os (file_of w f) w.shared).shared.slots i).txn_id
            → Live w i)
        × (count_active_readers (reap_stale_reader_slots os (file_of w f) w.shared).shared.slots
              + (reap_stale_reader_slots os (file_of w f) w.shared).cleared
            ≡ count_active_readers w.shared.slots)
  unfolding reap_stale_reader_slots file_of reap_of
  reap_stale_reader_slots_lem k n w f unlocked run =
      let start : Reaped w 0 (reap_of os w 0 0) = record {
        is_owned = Steps-IsOwned os run (fresh-IsOwned os k n unlocked);
        size = refl;
        live = λ j l. refl;
        stale = λ e j lt pos. absurd (omega arith);
        count = omega arith;
      } in
      let done =
        reap_from_lem w f (length w.shared.slots) 0 (reap_of os w 0 0) (omega arith) start in
      (done.live, done.stale, done.count)
