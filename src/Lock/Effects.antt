-- ===== src/Lock/Effects.antt =====
-- What one try of a slot and one probe of it change (take, ReapStaleReaderSlots of
-- internal/lock/reader.go).
use gmdb.Common.{
  ℕ, ◌+◌, Bool, true, false, ◌==◌, ==_self, Bool-cases, if◌then◌else◌, Option, none, some, ◌∷◌, set,
  ◌≡◌, ◌≢◌, ◌∙◌, ◌⊎◌, inl, inr, refl, sym, ap,
}
use gmdb.Lock.Kernel.{RangeLocks, Description, hold, probe, Attempt, granted, contended, failed}
use gmdb.Lock.{
  free_slot, has, put, File, Scan, Reap, Locked, acquired, slot_busy, undecided, note_undecided,
  verdict, try, publish, taken, take, clear_stale, probed,
}
use gmdb.Lock.Locking.{locker, try-free, try-acquired, try-refused, try-slot_busy, locker-release}

Locked-cases : (l : Locked) → (l ≡ acquired) ⊎ ((l ≡ slot_busy) ⊎ ((e : ℕ) × (l ≡ undecided e)))
Locked-cases acquired = inl refl
Locked-cases slot_busy = inr (inl refl)
Locked-cases (undecided e) = inr (inr (e, refl))

note_undecided-ne-none : (o : Option ℕ) (e : ℕ) → note_undecided o e ≢ none
unfolding note_undecided
note_undecided-ne-none none e h = cc
note_undecided-ne-none (some a) e h = cc

locks_after :
    (i j : ℕ) {a : Option Description} (b c : Option Description)
    → a ≡ (if i == j then c else b)
    → (if i == j then none else a) ≡ (if i == j then none else b)
locks_after i j b c e = elim (Bool-cases (i == j)) [
  | inl same ↦ rw same refl
  | inr other ↦ rw other (e ∙ rw other refl)
]

verdict-undecided : (a : Attempt) (n : ℕ) → verdict a ≡ undecided n → a ≡ failed n
unfolding verdict
verdict-undecided granted n e = cc
verdict-undecided contended n e = cc
verdict-undecided (failed m) n e = cc

module _ (os : RangeLocks) where
  -- The lock of every slot stands as it stood.
  abbrev pub SameLocks : os.Kernel → os.Kernel → Type 0
  SameLocks k l = (j : ℕ) → locker os l j ≡ locker os k j

  -- Another description holds the lock of slot `i`.
  abbrev pub Busy : os.Kernel → Description → ℕ → Type 0
  Busy k d i = (e : Description) × (locker os k i ≡ some e) × (e ≢ d)

  abbrev pub Free : os.Kernel → Description → ℕ → Type 0
  Free k d i = (locker os k i ≡ none) ⊎ (locker os k i ≡ some d)

  -- A call of the kernel failed otherwise than by contention.
  abbrev pub Faulty : Type 0
  Faulty =
      (k : os.Kernel) × (d : Description) × (off : ℕ) × (len : ℕ) × (e : ℕ)
      × ((os.try_exclusive_range k d off len).0 ≡ failed e)

  pub data TakeEffect (txn pid : ℕ) (s : Scan os.Kernel) (i : ℕ) (r : Bool × Scan os.Kernel)
      : Type 0 where
    refused :
        r.0 ≡ false
        → r.1.file ≡ s.file
        → r.1.shared.slots ≡ s.shared.slots
        → SameLocks s.shared.kernel r.1.shared.kernel
        → (r.1.first_undecided ≡ none
            → (s.first_undecided ≡ none)
              × ((has s.file.holds i ≡ true) ⊎ Busy s.shared.kernel (hold s.file.id) i))
        → (r.1.first_undecided ≡ s.first_undecided) ⊎ Faulty
        → TakeEffect txn pid s i r
    won :
        r.0 ≡ true
        → has s.file.holds i ≡ false
        → Free s.shared.kernel (hold s.file.id) i
        → r.1.file ≡ record (s.file) { holds = i ∷ s.file.holds }
        → r.1.shared.slots ≡ set s.shared.slots i (record free_slot { txn_id = txn; pid = pid })
        → ((j : ℕ)
            → locker os r.1.shared.kernel j
              ≡ (if i == j then some (hold s.file.id) else locker os s.shared.kernel j))
        → TakeEffect txn pid s i r

  try-undecided :
      (k : os.Kernel) (d : Description) (i n : ℕ) → (try os k d i).0 ≡ undecided n → Faulty
  unfolding try
  try-undecided k d i n e = (k, d, _, _, n, verdict-undecided _ n e)

  taken_lem :
      (txn pid : ℕ) (s : Scan os.Kernel) (i : ℕ) (l : Locked) (k : os.Kernel)
      → has s.file.holds i ≡ false
      → try os s.shared.kernel (hold s.file.id) i ≡ (l, k)
      → TakeEffect txn pid s i (taken os s i txn pid (l, k))
  unfolding taken put publish
  taken_lem txn pid s i acquired k out e =
      let got = ap (λ (p : Locked × os.Kernel). p.0) e in
      won refl out (try-free os _ _ i got) refl refl (λ j.
        ap (λ (p : Locked × os.Kernel). locker os p.1 j) (sym e) ∙ try-acquired os _ _ i j got)
  taken_lem txn pid s i slot_busy k out e =
      let got = ap (λ (p : Locked × os.Kernel). p.0) e in
      refused refl refl refl
        (λ j.
          ap (λ (p : Locked × os.Kernel). locker os p.1 j) (sym e)
          ∙ try-refused os _ _ i j (λ h. cc))
        (λ none_yet. (none_yet, inr (try-slot_busy os _ _ i got))) (inl refl)
  taken_lem txn pid s i (undecided n) k out e =
      let got = ap (λ (p : Locked × os.Kernel). p.0) e in
      refused refl refl refl
        (λ j.
          ap (λ (p : Locked × os.Kernel). locker os p.1 j) (sym e)
          ∙ try-refused os _ _ i j (λ h. cc))
        (λ none_yet. absurd (note_undecided-ne-none _ _ none_yet))
        (inr (try-undecided s.shared.kernel (hold s.file.id) i n got))

  pub take_effect :
      (txn pid : ℕ) (s : Scan os.Kernel) (i : ℕ) → TakeEffect txn pid s i (take os txn pid s i)
  unfolding take
  take_effect txn pid s i = elim (Bool-cases (has s.file.holds i)) [
    | inl held ↦
        rw held (refused refl refl refl (λ j. refl) (λ none_yet. (none_yet, inl held)) (inl refl))
    | inr out ↦ rw out (
        taken_lem txn pid s i (try os s.shared.kernel (hold s.file.id) i).0
          (try os s.shared.kernel (hold s.file.id) i).1 out refl)
  ]

  -- The probe of a slot: it was refused, or nobody else had locked the slot and it is free afterwards.
  pub data ProbeEffect (f : File) (i : ℕ) (r t : Reap os.Kernel) : Type 0 where
    kept :
        t.shared.slots ≡ r.shared.slots
        → SameLocks r.shared.kernel t.shared.kernel
        → t.cleared ≡ r.cleared
        → ((Busy r.shared.kernel (probe f.id) i × (t.undecided_probes ≡ r.undecided_probes))
            ⊎ (t.undecided_probes ≡ r.undecided_probes + 1))
        → ProbeEffect f i r t
    judged :
        t.shared.slots ≡ (clear_stale r.shared.slots i).0
        → Free r.shared.kernel (probe f.id) i
        → ((j : ℕ)
            → locker os t.shared.kernel j ≡ (if i == j then none else locker os r.shared.kernel j))
        → t.cleared ≡ r.cleared + (clear_stale r.shared.slots i).1
        → t.undecided_probes ≡ r.undecided_probes
        → ProbeEffect f i r t

  probe_given :
      (f : File) (r : Reap os.Kernel) (i : ℕ) (l : Locked) (k : os.Kernel)
      → try os r.shared.kernel (probe f.id) i ≡ (l, k)
      → ProbeEffect f i r (probed os f r i (l, k))
  unfolding probed
  probe_given f r i acquired k e =
      let got = ap (λ (p : Locked × os.Kernel). p.0) e in
      let law = λ (j : ℕ).
        ap (λ (p : Locked × os.Kernel). locker os p.1 j) (sym e) ∙ try-acquired os _ _ i j got in
      judged refl (try-free os _ _ i got)
        (λ j.
          locker-release os k (probe f.id) i j (law i ∙ rw (==_self i) refl)
          ∙ locks_after i j _ (some (probe f.id)) (law j))
        refl refl
  probe_given f r i slot_busy k e =
      let got = ap (λ (p : Locked × os.Kernel). p.0) e in
      kept refl
        (λ j.
          ap (λ (p : Locked × os.Kernel). locker os p.1 j) (sym e)
          ∙ try-refused os _ _ i j (λ h. cc))
        refl (inl (try-slot_busy os _ _ i got, refl))
  probe_given f r i (undecided n) k e =
      let got = ap (λ (p : Locked × os.Kernel). p.0) e in
      kept refl
        (λ j.
          ap (λ (p : Locked × os.Kernel). locker os p.1 j) (sym e)
          ∙ try-refused os _ _ i j (λ h. cc))
        refl (inr refl)

  pub probe_effect :
      (f : File) (r : Reap os.Kernel) (i : ℕ)
      → ProbeEffect f i r (probed os f r i (try os r.shared.kernel (probe f.id) i))
  probe_effect f r i = probe_given f r i _ _ refl
