-- ===== src/Lock/Ownership.antt =====
-- The invariant of the reader table: the slots that a handle holds or is still releasing and the
-- kernel's locks agree, and a held slot
-- pins a transaction (internal/lock/reader.go).
use gmdb.Common.{
  ℕ, zero, suc, ◌<◌, Bool, true, false, ◌==◌, ◌||◌, ==_iff, Bool-cases, if◌then◌else◌, Option, none,
  some, List, [], ◌∷◌, length, set, get_or-set, ◌≡◌, ◌≢◌, ◌∙◌, ◌⊎◌, inl, inr, refl, sym, ap, arith,
  replicate,
}
use gmdb.Lock.Kernel.{RangeLocks, Description, hold, probe}
use gmdb.Lock.{ReaderSlot, free_slot, slot, has, remove}
use gmdb.Lock.Locking.{locker}
use gmdb.Lock.Steps.{World, fresh}

-- Slot `i` of a table of `n` slots: who has it or is releasing it, whose lock it bears, what it pins.
pub record OwnedSlot (n i : ℕ) (h r : ℕ → Bool) (l : Option Description) (pin : ℕ) : Type 0 where
  pub inside : (f : ℕ) → (h f || r f) ≡ true → i < n
  pub locked : (f : ℕ) → (h f || r f) ≡ true → l ≡ some (hold f)
  pub owned : (f : ℕ) → l ≡ some (hold f) → (h f || r f) ≡ true
  pub unprobed : (f : ℕ) → l ≢ some (probe f)
  pub pinned : (f : ℕ) → h f ≡ true → 0 < pin
  pub apart : (f : ℕ) → h f ≡ true → r f ≡ false

module _ (os : RangeLocks) where
  -- The invariant
  unfoldable pub IsOwned : World os.Kernel → Type 0
  IsOwned w =
      (i : ℕ)
      → OwnedSlot (length w.shared.slots) i (λ f. has (w.holds f) i) (λ f. has (w.releasing f) i)
          (locker os w.shared.kernel i) (slot w.shared.slots i).txn_id

pub hold_inj : (f g : ℕ) → hold f ≡ hold g → f ≡ g
hold_inj f g e = cc

pub some_hold_inj : (f g : ℕ) → some (hold f) ≡ some (hold g) → f ≡ g
some_hold_inj f g e = cc

pub has-remove :
    (holds : List ℕ) (i j : ℕ) → has (remove holds i) j ≡ (if i == j then false else has holds j)
unfolding has remove
has-remove [] i j = ground arith
has-remove (held ∷ holds) i j = ground (arith, has-remove holds i j)

pub slot-set :
    (slots : List ReaderSlot) (i j : ℕ) (s : ReaderSlot)
    → i < length slots
    → slot (set slots i s) j ≡ (if i == j then s else slot slots j)
unfolding slot
slot-set slots i j s h = get_or-set slots i j s free_slot h

pub held-or : (a b : Bool) → a ≡ true → (a || b) ≡ true
held-or a b e = ground arith

pub released-or : (a b : Bool) → b ≡ true → (a || b) ≡ true
released-or a b e = ground arith

or-ap : {a b c d : Bool} → a ≡ c → b ≡ d → (a || b) ≡ (c || d)
or-ap e h = rw (e, h) refl

pub or-false : (a b : Bool) → (a || b) ≡ false → (a ≡ false) × (b ≡ false)
or-false a b e = ground arith

-- A slot that has the same owner after the act.
pub OwnedSlot-moved :
    {n i : ℕ} {h r : ℕ → Bool} {l : Option Description} {pin : ℕ} (m : ℕ) (h' r' : ℕ → Bool)
    (l' : Option Description) (pin' : ℕ)
    → OwnedSlot n i h r l pin
    → m ≡ n
    → ((f : ℕ) → (h' f || r' f) ≡ (h f || r f))
    → l' ≡ l
    → ((f : ℕ) → h' f ≡ true → 0 < pin')
    → ((f : ℕ) → h' f ≡ true → r' f ≡ false)
    → OwnedSlot m i h' r' l' pin'
OwnedSlot-moved m h' r' l' pin' o em eh el pos apart = record {
  inside = λ f e. rw em (o.inside f (sym (eh f) ∙ e));
  locked = λ f e. el ∙ o.locked f (sym (eh f) ∙ e);
  owned = λ f e. eh f ∙ o.owned f (sym el ∙ e);
  unprobed = λ f e. o.unprobed f (sym el ∙ e);
  pinned = pos;
  apart = apart;
}

-- A slot that the act does not touch.
pub OwnedSlot-same :
    {n i : ℕ} {h r : ℕ → Bool} {l : Option Description} {pin : ℕ} (m : ℕ) (h' r' : ℕ → Bool)
    (l' : Option Description) (pin' : ℕ)
    → OwnedSlot n i h r l pin
    → m ≡ n
    → ((f : ℕ) → h' f ≡ h f)
    → ((f : ℕ) → r' f ≡ r f)
    → l' ≡ l
    → pin' ≡ pin
    → OwnedSlot m i h' r' l' pin'
OwnedSlot-same m h' r' l' pin' o em eh er el ep =
    OwnedSlot-moved m h' r' l' pin' o em (λ f. or-ap (eh f) (er f)) el
      (λ f e. rw ep (o.pinned f (sym (eh f) ∙ e))) (λ f e. er f ∙ o.apart f (sym (eh f) ∙ e))

-- A slot that handle `g` alone has.
pub OwnedSlot-held :
    {n i : ℕ} (g : ℕ) (h r : ℕ → Bool) (l : Option Description) (pin : ℕ)
    → i < n
    → ((f : ℕ) → h f ≡ (f == g))
    → ((f : ℕ) → r f ≡ false)
    → l ≡ some (hold g)
    → 0 < pin
    → OwnedSlot n i h r l pin
OwnedSlot-held g h r l pin inside eh er el pos =
    let self = λ (f : ℕ) (e : (h f || r f) ≡ true).
      let own : (f == g) ≡ true = ground (arith, eh f, er f) in (==_iff f g).0 own in
    record {
      inside = λ f e. inside;
      locked = λ f e. el ∙ ap (λ (d : ℕ). some (hold d)) (sym (self f e));
      owned = λ f e. held-or _ _ (eh f ∙ (==_iff f g).1 (sym (some_hold_inj g f (sym el ∙ e))));
      unprobed = λ f e. cc (el, e);
      pinned = λ f e. pos;
      apart = λ f e. er f;
    }

-- A slot that nobody has.
pub OwnedSlot-free :
    {n i : ℕ} (h r : ℕ → Bool) (l : Option Description) (pin : ℕ)
    → ((f : ℕ) → (h f || r f) ≡ false)
    → l ≡ none
    → OwnedSlot n i h r l pin
OwnedSlot-free h r l pin eh el = record {
  inside = λ f e. cc (eh f);
  locked = λ f e. cc (eh f);
  owned = λ f e. cc;
  unprobed = λ f e. cc;
  pinned = λ f e. cc (e, (or-false (h f) (r f) (eh f)).0);
  apart = λ f e. (or-false (h f) (r f) (eh f)).1;
}

-- A slot that is locked by none or by `g` itself is no other handle's.
pub has-other :
    {n i : ℕ} {h r : ℕ → Bool} {l : Option Description} {pin : ℕ} (g f : ℕ)
    → OwnedSlot n i h r l pin
    → (l ≡ none) ⊎ (l ≡ some (hold g))
    → (f == g) ≡ false
    → (h f || r f) ≡ false
has-other {h = h} {r = r} g f o free other = elim (Bool-cases (h f || r f)) [
  | inr no_one ↦ no_one
  | inl it ↦ elim free [
    | inl un ↦ cc (o.locked f it)
    | inr self ↦
        let same : f ≡ g = some_hold_inj f g (sym (o.locked f it) ∙ self) in
        cc ((==_iff f g).1 same)
  ]
]

-- A slot that a probe locked was nobody's.
pub has-probed :
    {n i : ℕ} {h r : ℕ → Bool} {l : Option Description} {pin : ℕ} (g f : ℕ)
    → OwnedSlot n i h r l pin
    → (l ≡ none) ⊎ (l ≡ some (probe g))
    → (h f || r f) ≡ false
has-probed {h = h} {r = r} g f o free = elim (Bool-cases (h f || r f)) [
  | inr no_one ↦ no_one
  | inl it ↦ elim free [ inl un ↦ cc (o.locked f it) | inr self ↦ cc (o.locked f it) ]
]

slot-replicate : (n i : ℕ) → slot (replicate n free_slot) i ≡ free_slot
unfolding slot
slot-replicate zero i = refl
slot-replicate (suc n) zero = refl
slot-replicate (suc n) (suc i) = slot-replicate n i

pub fresh-IsOwned :
    (os : RangeLocks) (k : os.Kernel) (n : ℕ)
    → ((i : ℕ) → locker os k i ≡ none)
    → IsOwned os (fresh os k n)
unfolding IsOwned fresh has
fresh-IsOwned os k n unlocked i = OwnedSlot-free _ _ _ _ (λ f. refl) (unlocked i)
