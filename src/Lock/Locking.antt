-- ===== src/Lock/Locking.antt =====
-- The slot locks of internal/lock/reader.go, slot by slot: no two slots' ranges overlap.
use gmdb.Common.{
  ℕ, ◌+◌, ◌≤◌, false, ◌==◌, ==_iff, ==_self, Bool-cases, if◌then◌else◌, Option, none, some, ◌≡◌,
  ◌≢◌, ◌⊎◌, inl, inr, refl, sym, ap, arith,
}
use gmdb.Lock.Kernel.{RangeLocks, Description, Attempt, granted, contended, failed}
use gmdb.Lock.{slot_size, slot_range_off, verdict, acquired, slot_busy, try, release}

-- Two slots are one, or their ranges are apart.
same_or_apart :
    (i j : ℕ)
    → (i ≡ j)
      ⊎ (((i == j) ≡ false)
          × ((slot_range_off i + slot_size ≤ slot_range_off j)
              ⊎ (slot_range_off j + slot_size ≤ slot_range_off i)))
unfolding slot_range_off
same_or_apart i j = elim (Bool-cases (i == j)) [
  | inl same ↦ inl ((==_iff i j).0 same)
  | inr other ↦ inr (other, ground arith)
]

verdict-acquired : (a : Attempt) → verdict a ≡ acquired → a ≡ granted
unfolding verdict
verdict-acquired granted e = refl
verdict-acquired contended e = cc
verdict-acquired (failed n) e = cc

verdict-slot_busy : (a : Attempt) → verdict a ≡ slot_busy → a ≡ contended
unfolding verdict
verdict-slot_busy granted e = cc
verdict-slot_busy contended e = refl
verdict-slot_busy (failed n) e = cc

verdict-refused : (a : Attempt) → verdict a ≢ acquired → a ≢ granted
unfolding verdict
verdict-refused a ne e = ne (ap verdict e)

module _ (os : RangeLocks) where
  -- The description that holds the lock of a slot.
  unfoldable pub locker : os.Kernel → ℕ → Option Description
  locker k i = os.holder k (slot_range_off i) slot_size

  pub try-free :
      (k : os.Kernel) (d : Description) (i : ℕ)
      → (try os k d i).0 ≡ acquired
      → (locker k i ≡ none) ⊎ (locker k i ≡ some d)
  unfolding try locker
  try-free k d i e = os.granted_free k d _ _ (verdict-acquired _ e)

  pub try-acquired :
      (k : os.Kernel) (d : Description) (i j : ℕ)
      → (try os k d i).0 ≡ acquired
      → locker (try os k d i).1 j ≡ (if i == j then some d else locker k j)
  unfolding try locker
  try-acquired k d i j e = elim (same_or_apart i j) [
    | inl same ↦ rw (sym same, ==_self i) (os.granted_held k d _ _ (verdict-acquired _ e))
    | inr apart ↦ rw (apart.0) (os.try_elsewhere k d _ _ _ apart.1)
  ]

  pub try-refused :
      (k : os.Kernel) (d : Description) (i j : ℕ)
      → (try os k d i).0 ≢ acquired
      → locker (try os k d i).1 j ≡ locker k j
  unfolding try locker
  try-refused k d i j ne = elim (same_or_apart i j) [
    | inl same ↦ rw (sym same) (os.refused_same k d _ _ (verdict-refused _ ne))
    | inr apart ↦ os.try_elsewhere k d _ _ _ apart.1
  ]

  pub try-slot_busy :
      (k : os.Kernel) (d : Description) (i : ℕ)
      → (try os k d i).0 ≡ slot_busy
      → (e : Description) × (locker k i ≡ some e) × (e ≢ d)
  unfolding try locker
  try-slot_busy k d i e = os.contended_held k d _ _ (verdict-slot_busy _ e)

  pub locker-release :
      (k : os.Kernel) (d : Description) (i j : ℕ)
      → locker k i ≡ some d
      → locker (release os k d i) j ≡ (if i == j then none else locker k j)
  unfolding release locker
  locker-release k d i j e = elim (same_or_apart i j) [
    | inl same ↦ rw (sym same, ==_self i) (os.unlock_free k d _ _ e)
    | inr apart ↦ rw (apart.0) (os.unlock_elsewhere k d _ _ _ apart.1)
  ]
