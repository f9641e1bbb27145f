-- ===== src/Lock/Holding.antt =====
-- The acts of a release, a raise and a death keep the invariant of the reader table (internal/lock/reader.go).
use gmdb.Common.{
  ℕ, ◌<◌, Bool, true, false, ◌==◌, ◌||◌, ==_iff, ==_self, Bool-cases, if◌then◌else◌, some, List, [],
  ◌∷◌, length, set, length-set, ◌≡◌, ◌≢◌, ◌∙◌, inl, inr, refl, sym, ap, arith,
}
use gmdb.Lock.Kernel.{RangeLocks, Description, hold, probe}
use gmdb.Lock.{
  ReaderSlot, slot, has, put, remove, Shared, File, drop_hold, raise_reader_slot_txn_id,
}
use gmdb.Lock.Locking.{locker, locker-release}
use gmdb.Lock.Steps.{World, file_of, become_with}
use gmdb.Lock.Ownership.{
  IsOwned, has-remove, slot-set, OwnedSlot-moved, OwnedSlot-same, OwnedSlot-free, has-other,
  hold_inj, some_hold_inj, held-or, released-or,
}

pub has-remove_other :
    (holds : List ℕ) (i j : ℕ) → (i == j) ≡ false → has (remove holds i) j ≡ has holds j
has-remove_other holds i j other = has-remove holds i j ∙ rw other refl

-- Of slot `j`, once `f` is releasing `i`: who has it or is releasing it is as before.
begun :
    {K : Type 0} (w : World K) (f i j g : ℕ)
    → has (w.holds f) i ≡ true
    → ((if g == f then has (remove (w.holds f) i) j else has (w.holds g) j)
        || (if g == f then has (i ∷ w.releasing f) j else has (w.releasing g) j))
      ≡ (has (w.holds g) j || has (w.releasing g) j)
unfolding has
begun w f i j g held = elim (Bool-cases (g == f)) [
  | inr other ↦ rw other refl
  | inl self ↦
      let e : g ≡ f = (==_iff g f).0 self in
      let out = has-remove (w.holds f) i j in
      rw (self, e)
        (elim (Bool-cases (i == j)) [
          | inl same ↦
              let at : has (w.holds f) j ≡ true = rw (← (==_iff i j).0 same) held in
              rw (out, same, at) refl
          | inr other ↦ rw (out, other) refl
        ])
]

-- What `f` has of the others stays, and none of it is being released.
begun-apart :
    {K : Type 0} (w : World K) (f i j g : ℕ)
    → (has (w.holds g) j ≡ true → has (w.releasing g) j ≡ false)
    → (if g == f then has (remove (w.holds f) i) j else has (w.holds g) j) ≡ true
    → (has (w.holds g) j ≡ true)
      × ((if g == f then has (i ∷ w.releasing f) j else has (w.releasing g) j) ≡ false)
unfolding has
begun-apart w f i j g before =
    let out = has-remove (w.holds f) i j in
    elim (Bool-cases (g == f)) [
      | inr other ↦ rw other (λ e. (e, before e))
      | inl self ↦
          let e : g ≡ f = (==_iff g f).0 self in
          rw (self, ← e)
            (elim (Bool-cases (i == j)) [
              | inl same ↦ rw (has-remove (w.holds g) i j, same) (λ h. cc)
              | inr other ↦ rw (has-remove (w.holds g) i j, other) (λ h. (h, before h))
            ])
    ]

-- The slot that `f` has unlocked is nobody's.
lost :
    {K : Type 0} (w : World K) (f i j g : ℕ)
    → (i == j) ≡ true
    → has (w.holds f) i ≡ false
    → ((g == f) ≡ false → (has (w.holds g) i || has (w.releasing g) i) ≡ false)
    → ((if g == f then has (w.holds f) j else has (w.holds g) j)
        || (if g == f then has (remove (w.releasing f) i) j else has (w.releasing g) j))
      ≡ false
lost w f i j g same out others =
    let at : i ≡ j = (==_iff i j).0 same in
    elim (Bool-cases (g == f)) [
      | inl self ↦ rw (self, ← at, out, has-remove (w.releasing f) i i, ==_self i) refl
      | inr other ↦ rw (other, ← at) (others other)
    ]

-- A list of a handle, once another list of equal content at `j` is put in its place.
pub replaced :
    (lists : ℕ → List ℕ) (f g j : ℕ) (list : List ℕ)
    → has list j ≡ has (lists f) j
    → (if g == f then has list j else has (lists g) j) ≡ has (lists g) j
replaced lists f g j list e = elim (Bool-cases (g == f)) [
  | inl self ↦ rw (self, (==_iff g f).0 self) e
  | inr other ↦ rw other refl
]

pub has-if :
    (b : Bool) (x y : List ℕ) (j : ℕ)
    → has (if b then x else y) j ≡ (if b then has x j else has y j)
has-if b x y j = ground arith

probe_inj : (f g : ℕ) → probe f ≡ probe g → f ≡ g
probe_inj f g e = cc

module _ (os : RangeLocks) where
  -- A slot that a handle is releasing is in no hold set.
  pub not_held :
      (w : World os.Kernel) (f g i : ℕ)
      → IsOwned os w
      → has (w.releasing f) i ≡ true
      → has (w.holds g) i ≡ false
  unfolding IsOwned
  not_held w f g i own begun = elim (Bool-cases (has (w.holds g) i)) [
    | inr out ↦ out
    | inl held ↦
        let mine = (own i).locked f (released-or _ _ begun) in
        let same : g ≡ f = some_hold_inj g f (sym ((own i).locked g (held-or _ _ held)) ∙ mine) in
        let apart = (own i).apart g held in cc (apart, begun, same)
  ]

  pub give_back-IsOwned :
      (w : World os.Kernel) (f i : ℕ)
      → has (w.holds f) i ≡ true
      → IsOwned os w
      → IsOwned os (become_with w f (remove (w.holds f) i) (put (w.releasing f) i) w.shared)
  unfolding IsOwned become_with put
  give_back-IsOwned w f i held own j =
      OwnedSlot-moved _ _ _ _ _ (own j) refl
        (λ g.
          rw (has-if (g == f) (remove (w.holds f) i), has-if (g == f) (i ∷ w.releasing f))
            (begun w f i j g held))
        refl
        (λ g e.
          (own j).pinned g
            (begun-apart w f i j g ((own j).apart g) (sym (has-if (g == f) _ _ j) ∙ e)).0)
        (λ g e.
          has-if (g == f) _ _ j
          ∙ (begun-apart w f i j g ((own j).apart g) (sym (has-if (g == f) _ _ j) ∙ e)).1)

  -- A store into a slot that is being released.
  pub stored-IsOwned :
      (w : World os.Kernel) (f i : ℕ) (s : ReaderSlot)
      → has (w.releasing f) i ≡ true
      → IsOwned os w
      → IsOwned os (record w { shared = record (w.shared) { slots = set w.shared.slots i s } })
  unfolding IsOwned
  stored-IsOwned w f i s begun own j =
      OwnedSlot-moved _ _ _ _ _ (own j) (length-set w.shared.slots i s) (λ g. refl) refl
        (λ g e. elim (Bool-cases (i == j)) [
          | inl same ↦
              let at : i ≡ j = (==_iff i j).0 same in cc (not_held w f g i own begun, at, e)
          | inr other ↦
              rw (slot-set w.shared.slots i j s ((own i).inside f (released-or _ _ begun)), other)
                ((own j).pinned g e)
        ])
        (own j).apart

  pub unlock-IsOwned :
      (w : World os.Kernel) (f i : ℕ)
      → has (w.releasing f) i ≡ true
      → IsOwned os w
      → IsOwned os (
          become_with w f
            (w.holds f)
            (remove (w.releasing f) i)
            (drop_hold os (file_of w f) w.shared i))
  unfolding IsOwned become_with drop_hold file_of
  unlock-IsOwned w f i begun own j =
      let mine = (own i).locked f (released-or _ _ begun) in
      let locks = locker-release os w.shared.kernel (hold f) i j mine in
      elim (Bool-cases (i == j)) [
        | inl same ↦
            OwnedSlot-free _ _ _ _
              (λ g.
                rw (has-if (g == f) (w.holds f), has-if (g == f) (remove (w.releasing f) i))
                  (lost w f i j g same (not_held w f f i own begun)
                    (has-other f g (own i) (inr mine))))
              (locks ∙ rw same refl)
        | inr other ↦
            OwnedSlot-same _ _ _ _ _ (own j) refl
              (λ g. has-if (g == f) _ _ j ∙ replaced w.holds f g j (w.holds f) refl)
              (λ g.
                has-if (g == f) _ _ j
                ∙ replaced w.releasing f g j (remove (w.releasing f) i)
                    (has-remove_other (w.releasing f) i j other))
              (locks ∙ rw other refl) refl
      ]

  pub raised_lem :
      (f : File) (sh : Shared os.Kernel) (i txn : ℕ) (raised : Shared os.Kernel)
      → raise_reader_slot_txn_id os f sh i txn ≡ some raised
      → (has f.holds i ≡ true)
        × (raised.slots ≡ set sh.slots i (record (slot sh.slots i) { txn_id = txn }))
        × (raised.kernel ≡ sh.kernel)
  unfolding raise_reader_slot_txn_id
  raised_lem f sh i txn raised e = ground arith

  pub raise-IsOwned :
      (w : World os.Kernel) (f i txn : ℕ) (sh : Shared os.Kernel)
      → 0 < txn
      → raise_reader_slot_txn_id os (file_of w f) w.shared i txn ≡ some sh
      → IsOwned os w
      → IsOwned os (record w { shared = sh })
  unfolding IsOwned file_of raise_reader_slot_txn_id
  raise-IsOwned w f i txn sh pos e own j =
      let (held, es, ek) = raised_lem (file_of w f) w.shared i txn sh e in
      let inside = (own i).inside f (held-or _ _ held) in
      elim (Bool-cases (i == j)) [
        | inl same ↦
            OwnedSlot-moved _ _ _ _ _ (own j) (ap length es ∙ length-set w.shared.slots i _)
              (λ g. refl) (ap (λ (k : os.Kernel). locker os k j) ek)
              (λ g _.
                rw
                  (
                    es,
                    slot-set w.shared.slots i j (record (slot w.shared.slots i) { txn_id = txn })
                        inside,
                    same,
                  )
                  pos)
              (own j).apart
        | inr other ↦
            OwnedSlot-same _ _ _ _ _ (own j) (ap length es ∙ length-set w.shared.slots i _)
              (λ g. refl) (λ g. refl) (ap (λ (k : os.Kernel). locker os k j) ek)
              (ap (λ (x : List ReaderSlot). (slot x j).txn_id) es
                ∙ ap (λ (x : ReaderSlot). x.txn_id) (slot-set w.shared.slots i j _ inside)
                ∙ rw other refl)
      ]

  -- The locks behind the exit of handle `f`'s process.
  abbrev died : os.Kernel → ℕ → os.Kernel
  died k f = os.close (os.close k (hold f)) (probe f)

  died_back :
      (k : os.Kernel) (f j : ℕ) (d : Description)
      → d ≢ hold f
      → d ≢ probe f
      → locker os k j ≡ some d
      → locker os (died k f) j ≡ some d
  unfolding locker
  died_back k f j d nh np e =
      (os.close_keeps _ (probe f) d _ _ np).1 ((os.close_keeps k (hold f) d _ _ nh).1 e)

  died_hold :
      (k : os.Kernel) (f g j : ℕ)
      → locker os (died k f) j ≡ some (hold g)
      → ((g == f) ≡ false) × (locker os k j ≡ some (hold g))
  unfolding locker
  died_hold k f g j e =
      let still = (os.close_keeps _ (probe f) (hold g) _ _ (λ h. cc)).0 e in
      elim (Bool-cases (g == f)) [
        | inl self ↦ absurd (
            os.close_drops k (hold f) _ _
              (still ∙ ap (λ (n : ℕ). some (hold n)) ((==_iff g f).0 self)))
        | inr other ↦ (
          other,
          (os.close_keeps k (hold f) (hold g) _ _
                (λ h. cc (other, (==_iff g f).1 (hold_inj g f h)))).0
              still,
        )
      ]

  died_probe :
      (k : os.Kernel) (f g j : ℕ)
      → locker os k j ≢ some (probe g)
      → locker os (died k f) j ≢ some (probe g)
  unfolding locker
  died_probe k f g j never e = elim (Bool-cases (g == f)) [
    | inl self ↦
        os.close_drops _ (probe f) _ _ (e ∙ ap (λ (n : ℕ). some (probe n)) ((==_iff g f).0 self))
    | inr other ↦ never (
        (os.close_keeps k (hold f) (probe g) _ _ (λ h. cc)).0 (
          (os.close_keeps _ (probe f) (probe g) _ _
              (λ h. cc (other, (==_iff g f).1 (probe_inj g f h)))).0
            e))
  ]

  survivor :
      (w : World os.Kernel) (f g j : ℕ)
      → (has (if g == f then [] else w.holds g) j || has (if g == f then [] else w.releasing g) j)
        ≡ true
      → ((g == f) ≡ false) × ((has (w.holds g) j || has (w.releasing g) j) ≡ true)
  unfolding has
  survivor w f g j e = ground arith

  pub die-IsOwned :
      (w : World os.Kernel) (f : ℕ)
      → IsOwned os w
      → IsOwned os (
          become_with w f [] []
            (record (w.shared) { kernel = os.close (os.close w.shared.kernel (hold f)) (probe f) }))
  unfolding IsOwned become_with has
  die-IsOwned w f own j = record {
    inside = λ g e. (own j).inside g (survivor w f g j e).1;
    locked = λ g e.
        let (other, had) = survivor w f g j e in
        died_back w.shared.kernel f j (hold g) (λ h. cc (other, (==_iff g f).1 (hold_inj g f h)))
          (λ h. cc) ((own j).locked g had);
    owned = λ g e.
        let (other, back) = died_hold w.shared.kernel f g j e in rw other ((own j).owned g back);
    unprobed = λ g e. died_probe w.shared.kernel f g j ((own j).unprobed g) e;
    pinned = λ g e. (own j).pinned g (ground arith);
    apart = λ g e. let before = (own j).apart g in ground arith;
  }
