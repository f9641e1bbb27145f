-- ===== src/Lock/Rounds.antt =====
-- One round of either loop of AcquireReaderSlot (internal/lock/reader.go).
use gmdb.Common.{
  ℕ, Bool, true, ◌==◌, ==_self, Bool-cases, if◌then◌else◌, Option, none, some, List, ◌∷◌, set, ◌≡◌,
  ◌∙◌, ◌⊎◌, inl, inr, refl, sym, ap,
}
use gmdb.Lock.Kernel.{RangeLocks, Description, hold, probe}
use gmdb.Lock.{ReaderSlot, free_slot, slot, has, File, Scan, take, take_free}
use gmdb.Lock.Locking.{locker}
use gmdb.Lock.Effects.{refused, won, take_effect, Faulty}
use gmdb.Lock.Steps.{World, file_of, scan_of, owns}
use gmdb.Lock.Ownership.{IsOwned, held-or}
use gmdb.Lock.Passes.{Quiet, Won, BodyDone, lost, got}

module _ {K : Type 0} where
  -- A live handle has slot `i`, or is still releasing it.
  abbrev pub Live : World K → ℕ → Type 0
  Live w i = (g : ℕ) × (owns w g i ≡ true)

pub has-put_self : (holds : List ℕ) (i : ℕ) → has (i ∷ holds) i ≡ true
unfolding has
has-put_self holds i = rw (==_self i) refl

module _ (os : RangeLocks) where
  pub busy-Live :
      (w : World os.Kernel) (i : ℕ) (d : Description)
      → IsOwned os w
      → locker os w.shared.kernel i ≡ some d
      → Live w i
  unfolding IsOwned owns
  busy-Live w i (hold g) own e = (g, (own i).owned g e)
  busy-Live w i (probe g) own e = absurd ((own i).unprobed g e)

  undecided_trans :
      (a b c : Option ℕ) → ((b ≡ a) ⊎ Faulty os) → ((c ≡ b) ⊎ Faulty os) → (c ≡ a) ⊎ Faulty os
  undecided_trans a b c (inl e) (inl h) = inl (h ∙ e)
  undecided_trans a b c (inr x) h = inr x
  undecided_trans a b c (inl e) (inr x) = inr x

  pub take_round :
      (w : World os.Kernel) (f txn pid : ℕ) (t : Scan os.Kernel) (i : ℕ)
      → IsOwned os w
      → Quiet os (scan_of os w f none) t
      → BodyDone os
          (scan_of os w f none)
          (Won os txn pid (scan_of os w f none))
          (Live w)
          t
          i
          (take os txn pid t i)
  unfolding scan_of file_of owns
  take_round w f txn pid t i own (fq, sq, lq, uq) = elim (take_effect os txn pid t i) [
    | refused e fe se le why fault ↦
        lost e (fe ∙ fq, se ∙ sq, λ j. le j ∙ lq j, undecided_trans _ _ _ uq fault)
          (λ none_yet.
            let (before, reason) = why none_yet in
            (
              before,
              elim reason [
                | inl held ↦ (f, held-or _ _ (ap (λ (x : File). has x.holds i) (sym fq) ∙ held))
                | inr (d, locked, other) ↦ busy-Live w i d own (sym (lq i) ∙ locked)
              ],
            ))
    | won e out free fe se le ↦ got e (
      ap (λ (x : File). has x.holds i) (sym fq) ∙ out,
      elim free [
        | inl un ↦ inl (sym (lq i) ∙ un)
        | inr self ↦ inr (sym (lq i) ∙ self ∙ ap (λ (x : File). some (hold x.id)) fq)
      ],
      fe ∙ ap (λ (x : File). record x { holds = i ∷ x.holds }) fq,
      se ∙ ap (λ (l : List ReaderSlot). set l i (record free_slot { txn_id = txn; pid = pid })) sq,
      λ j.
          le j
          ∙ ap (λ (x : File). if i == j then some (hold x.id) else locker os t.shared.kernel j) fq
          ∙ ap (λ (l : Option Description). if i == j then some (hold f) else l) (lq j),
    )
  ]

  -- The reason does not matter in the first loop.
  any_reason :
      (s : Scan os.Kernel) (W : ℕ → Scan os.Kernel → Type 0) (R : ℕ → Type 0) (t : Scan os.Kernel)
      (i : ℕ) (r : Bool × Scan os.Kernel)
      → BodyDone os s W R t i r
      → BodyDone os s W (λ j. Unit) t i r
  any_reason s W R t i r (lost e q why) = lost e q (λ h. ((why h).0, tt))
  any_reason s W R t i r (got e w) = got e w

  pub take_free_round :
      (w : World os.Kernel) (f txn pid : ℕ) (t : Scan os.Kernel) (i : ℕ)
      → IsOwned os w
      → Quiet os (scan_of os w f none) t
      → BodyDone os
          (scan_of os w f none)
          (Won os txn pid (scan_of os w f none))
          (λ j. Unit)
          t
          i
          (take_free os txn pid t i)
  unfolding take_free
  take_free_round w f txn pid t i own q = elim (Bool-cases ((slot t.shared.slots i).txn_id == 0)) [
    | inl unused ↦ rw unused (any_reason _ _ (Live w) _ _ _ (take_round w f txn pid t i own q))
    | inr used ↦ rw used (lost refl q (λ h. (h, tt)))
  ]
