-- ===== src/Lock/Trying.antt =====
-- A try of a slot and a probe of one keep the invariant of the reader table (internal/lock/reader.go).
use gmdb.Common.{
  ℕ, ◌<◌, Bool, true, false, ◌==◌, ==_iff, Bool-cases, if◌then◌else◌, Option, List, ◌∷◌, length,
  length-set, ◌≡◌, ◌∙◌, inl, inr, refl, sym, ap, arith,
}
use gmdb.Lock.Kernel.{RangeLocks}
use gmdb.Lock.{ReaderSlot, free_slot, slot, has, Shared, File, Scan, Reap, clear_stale}
use gmdb.Lock.Effects.{SameLocks, TakeEffect, refused, won, ProbeEffect, kept, judged}
use gmdb.Lock.Steps.{World, file_of, become, scan_of, reap_of, after_scan}
use gmdb.Lock.Ownership.{
  IsOwned, slot-set, OwnedSlot-same, OwnedSlot-held, OwnedSlot-free, has-other, has-probed,
  or-false,
}

pub has-become :
    {K : Type 0} (w : World K) (f g : ℕ) (holds : List ℕ) (sh : Shared K) (j : ℕ)
    → has ((become w f holds sh).holds g) j ≡ (if g == f then has holds j else has (w.holds g) j)
unfolding become
has-become w f g holds sh j = ground arith

pub has-become_same :
    {K : Type 0} (w : World K) (f g : ℕ) (holds : List ℕ) (sh : Shared K) (j : ℕ)
    → has holds j ≡ has (w.holds f) j
    → has ((become w f holds sh).holds g) j ≡ has (w.holds g) j
has-become_same w f g holds sh j e = elim (Bool-cases (g == f)) [
  | inl same ↦
      has-become w f g holds sh j
      ∙ rw same (e ∙ ap (λ (d : ℕ). has (w.holds d) j) (sym ((==_iff g f).0 same)))
  | inr other ↦ has-become w f g holds sh j ∙ rw other refl
]

pub has-put_other : (holds : List ℕ) (i j : ℕ) → (i == j) ≡ false → has (i ∷ holds) j ≡ has holds j
unfolding has
has-put_other holds i j other = rw other refl

-- The slot that `f` has won is `f`'s and nobody else's.
gained :
    {K : Type 0} (w : World K) (f i j g : ℕ) (b : Bool)
    → (i == j) ≡ true
    → b ≡ has (i ∷ w.holds f) j
    → ((g == f) ≡ false → has (w.holds g) i ≡ false)
    → (if g == f then b else has (w.holds g) j) ≡ (g == f)
unfolding has
gained w f i j g b same e others = elim (Bool-cases (g == f)) [
  | inl self ↦ rw (self, e, same) refl
  | inr other ↦ rw (other, sym ((==_iff i j).0 same)) (others other)
]

pub clear_stale-slot :
    (slots : List ReaderSlot) (i j : ℕ)
    → i < length slots
    → (i == j) ≡ false
    → slot (clear_stale slots i).0 j ≡ slot slots j
unfolding clear_stale
clear_stale-slot slots i j inside other = elim (Bool-cases ((slot slots i).txn_id == 0)) [
  | inl zero_id ↦ rw zero_id refl
  | inr stale ↦ rw stale (slot-set slots i j _ inside ∙ rw other refl)
]

pub clear_stale-length :
    (slots : List ReaderSlot) (i : ℕ) → length (clear_stale slots i).0 ≡ length slots
unfolding clear_stale
clear_stale-length slots i = elim (Bool-cases ((slot slots i).txn_id == 0)) [
  | inl zero_id ↦ rw zero_id refl
  | inr stale ↦ rw stale (length-set slots i _)
]

module _ (os : RangeLocks) where
  pub same-IsOwned :
      (w : World os.Kernel) (f : ℕ) (t : Scan os.Kernel)
      → t.file ≡ file_of w f
      → t.shared.slots ≡ w.shared.slots
      → SameLocks os w.shared.kernel t.shared.kernel
      → IsOwned os w
      → IsOwned os (after_scan os w f t)
  unfolding IsOwned after_scan file_of become
  same-IsOwned w f t fe se le own j =
      OwnedSlot-same _ _ _ _ _ (own j) (ap length se)
        (λ g. has-become_same w f g _ t.shared j (ap (λ (x : File). has x.holds j) fe)) (λ g. refl)
        (le j) (ap (λ (x : List ReaderSlot). (slot x j).txn_id) se)

  pub take-IsOwned :
      (w : World os.Kernel) (f i txn pid : ℕ) (u : Option ℕ) (r : Bool × Scan os.Kernel)
      → 0 < txn
      → i < length w.shared.slots
      → has (w.releasing f) i ≡ false
      → TakeEffect os txn pid (scan_of os w f u) i r
      → IsOwned os w
      → IsOwned os (after_scan os w f r.1)
  unfolding IsOwned after_scan scan_of file_of become
  take-IsOwned w f i txn pid u r pos inside idle (refused out fe se le why fault) own =
      same-IsOwned w f r.1 fe se le own
  take-IsOwned w f i txn pid u r pos inside idle (won in_ out free fe se le) own = λ j.
      let he = ap (λ (x : File). has x.holds j) fe in
      let te = ap (λ (x : List ReaderSlot). (slot x j).txn_id) se in
      let put = slot-set w.shared.slots i j (record free_slot { txn_id = txn; pid = pid }) inside in
      elim (Bool-cases (i == j)) [
        | inl same ↦
            let j_is : i ≡ j = (==_iff i j).0 same in
            OwnedSlot-held f _ _ _ _
              (rw
                (
                  se,
                  length-set w.shared.slots i (record free_slot { txn_id = txn; pid = pid }),
                  sym j_is,
                )
                inside)
              (λ g.
                has-become w f g _ r.1.shared j
                ∙ gained w f i j g _ same he (λ o. (or-false _ _ (has-other f g (own i) free o)).0))
              (λ g. elim (Bool-cases (g == f)) [
                | inl self ↦ rw ((==_iff g f).0 self, sym j_is) idle
                | inr o ↦ rw (sym j_is) ((or-false _ _ (has-other f g (own i) free o)).1)
              ])
              (le j ∙ rw same refl) (rw (te, put, same) pos)
        | inr other ↦
            OwnedSlot-same _ _ _ _ _ (own j) (ap length se ∙ length-set w.shared.slots i _)
              (λ g. has-become_same w f g _ r.1.shared j (he ∙ has-put_other (w.holds f) i j other))
              (λ g. refl) (le j ∙ rw other refl)
              (te ∙ ap (λ (x : ReaderSlot). x.txn_id) put ∙ rw other refl)
      ]

  pub probe-IsOwned :
      (w : World os.Kernel) (f i c u : ℕ) (r : Reap os.Kernel)
      → i < length w.shared.slots
      → ProbeEffect os (file_of w f) i (reap_of os w c u) r
      → IsOwned os w
      → IsOwned os (record w { shared = r.shared })
  unfolding IsOwned reap_of file_of
  probe-IsOwned w f i c u r inside (kept se le ce why) own j =
      OwnedSlot-same _ _ _ _ _ (own j) (ap length se) (λ g. refl) (λ g. refl) (le j)
        (ap (λ (x : List ReaderSlot). (slot x j).txn_id) se)
  probe-IsOwned w f i c u r inside (judged se free le ce ue) own j = elim (Bool-cases (i == j)) [
    | inl same ↦
        OwnedSlot-free _ _ _ _ (λ g. rw (sym ((==_iff i j).0 same)) (has-probed f g (own i) free))
          (le j ∙ rw same refl)
    | inr other ↦
        OwnedSlot-same _ _ _ _ _ (own j) (ap length se ∙ clear_stale-length w.shared.slots i)
          (λ g. refl) (λ g. refl) (le j ∙ rw other refl)
          (ap (λ (x : List ReaderSlot). (slot x j).txn_id) se
            ∙ ap (λ (x : ReaderSlot). x.txn_id) (clear_stale-slot w.shared.slots i j inside other))
  ]
