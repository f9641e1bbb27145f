-- ===== src/Lock/Oldest.antt =====
-- OldestReaderTxnID and CountActiveReaders of internal/lock/reader.go: the bound under which the writer
-- may reuse pages.
use gmdb.Common.{
  ℕ, zero, suc, ◌^◌, ◌≤◌, ◌<◌, true, not, ◌==◌, ◌&&◌, ltb, Bool-cases, if◌then◌else◌, List, [], ◌∷◌,
  length, All, ◌≡◌, ◌⊎◌, inl, inr, refl, ◌∙◌, arith,
}
use gmdb.Lock.{
  ReaderSlot, slot, Shared, File, no_reader_txn_id, min_txn_from, oldest_reader_txn_id,
  count_active_readers,
}

-- Every transaction id is a 64-bit word.
abbrev pub WordIds : List ReaderSlot → Type 0
WordIds slots = All (λ (s : ReaderSlot). s.txn_id < 2 ^ 64) slots

-- The loop's next minimum
abbrev lower : ReaderSlot → ℕ → ℕ
lower s m = if not (s.txn_id == 0) && ltb s.txn_id m then s.txn_id else m

lower-le : (s : ReaderSlot) (m : ℕ) → lower s m ≤ m
lower-le s m = ground arith

lower-le_id : (s : ReaderSlot) (m : ℕ) → 0 < s.txn_id → lower s m ≤ s.txn_id
lower-le_id s m pos = ground arith

min_txn_from-le : (slots : List ReaderSlot) (m : ℕ) → min_txn_from slots m ≤ m
unfolding min_txn_from
min_txn_from-le [] m = omega arith
min_txn_from-le (s ∷ slots) m = omega (arith, min_txn_from-le slots (lower s m), lower-le s m)

min_txn_from-bound :
    (slots : List ReaderSlot) (m i : ℕ)
    → 0 < (slot slots i).txn_id
    → min_txn_from slots m ≤ (slot slots i).txn_id
unfolding min_txn_from slot
min_txn_from-bound [] m i pos = absurd (omega arith)
min_txn_from-bound (s ∷ slots) m zero pos =
    omega (arith, min_txn_from-le slots (lower s m), lower-le_id s m pos)
min_txn_from-bound (s ∷ slots) m (suc i) pos = min_txn_from-bound slots (lower s m) i pos

-- The slot whose id is the minimum.
abbrev pub Attained : List ReaderSlot → ℕ → Type 0
Attained slots m =
    (i : ℕ) × (i < length slots) × (0 < (slot slots i).txn_id) × (m ≡ (slot slots i).txn_id)

lower_cases : (s : ReaderSlot) (m : ℕ) → (lower s m ≡ m) ⊎ ((0 < s.txn_id) × (lower s m ≡ s.txn_id))
lower_cases s m = ground arith

min_txn_from-Attained :
    (slots : List ReaderSlot) (m : ℕ)
    → (min_txn_from slots m ≡ m) ⊎ Attained slots (min_txn_from slots m)
unfolding min_txn_from slot
min_txn_from-Attained [] m = inl refl
min_txn_from-Attained (s ∷ slots) m = elim (min_txn_from-Attained slots (lower s m)) [
  | inr (i, inside, pos, e) ↦ inr (suc i, omega arith, pos, e)
  | inl same ↦ elim (lower_cases s m) [
    | inl kept ↦ inl (same ∙ kept)
    | inr (pos, e) ↦ inr (0, omega arith, pos, same ∙ e)
  ]
]

active_slot :
    (slots : List ReaderSlot)
    → 0 < count_active_readers slots
    → (i : ℕ) × (i < length slots) × (0 < (slot slots i).txn_id)
unfolding count_active_readers slot
active_slot [] pos = absurd (omega arith)
active_slot (s ∷ slots) pos = elim (Bool-cases (s.txn_id == 0)) [
  | inr used ↦ (0, omega arith, ground arith)
  | inl unused ↦
      let (i, inside, busy) = active_slot slots (ground arith) in (suc i, omega arith, busy)
]

idle_slot :
    (slots : List ReaderSlot) (i : ℕ) → count_active_readers slots ≡ 0 → (slot slots i).txn_id ≡ 0
unfolding count_active_readers slot
idle_slot [] i e = refl
idle_slot (s ∷ slots) zero e = ground arith
idle_slot (s ∷ slots) (suc i) e = idle_slot slots i (ground arith)

slot-word :
    (slots : List ReaderSlot) (i : ℕ) → WordIds slots → (slot slots i).txn_id ≤ no_reader_txn_id
unfolding slot
slot-word [] i words = omega arith
slot-word (s ∷ slots) zero words = omega (arith, words.0)
slot-word (s ∷ slots) (suc i) words = slot-word slots i words.1

module _ {K : Type 0} where
  -- On a mapped handle, OldestReaderTxnID is a lower bound of the transaction ids of the occupied slots;
  -- where CountActiveReaders counts none it is the sentinel, and otherwise it is the id of an occupied
  -- slot.
  pub oldest_reader_txn_id_lem :
      (f : File) (sh : Shared K)
      → f.mapped ≡ true
      → WordIds sh.slots
      → ((i : ℕ)
          → 0 < (slot sh.slots i).txn_id
          → oldest_reader_txn_id f sh ≤ (slot sh.slots i).txn_id)
        × (count_active_readers sh.slots ≡ 0 → oldest_reader_txn_id f sh ≡ no_reader_txn_id)
        × (0 < count_active_readers sh.slots → Attained sh.slots (oldest_reader_txn_id f sh))
  unfolding oldest_reader_txn_id
  oldest_reader_txn_id_lem f sh live words = rw live (
    λ i pos. min_txn_from-bound sh.slots no_reader_txn_id i pos,
    λ none_active. elim (min_txn_from-Attained sh.slots no_reader_txn_id) [
      | inl e ↦ e
      | inr (i, inside, pos, e) ↦ absurd (omega (arith, idle_slot sh.slots i none_active))
    ],
    λ some_active. elim (min_txn_from-Attained sh.slots no_reader_txn_id) [
      | inr found ↦ found
      | inl e ↦
          let (i, inside, pos) = active_slot sh.slots some_active in
          (
            i,
            inside,
            pos,
            omega (
              arith,
              e,
              min_txn_from-bound sh.slots no_reader_txn_id i pos,
              slot-word sh.slots i words,
            ),
          )
    ],
  )
