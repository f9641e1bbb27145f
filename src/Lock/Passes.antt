-- ===== src/Lock/Passes.antt =====
-- The two loops of AcquireReaderSlot (internal/lock/reader.go): what they have tried when they end.
use gmdb.Common.{
  ℕ, zero, suc, ◌+◌, ◌%◌, ◌<◌, Bool, true, false, ◌==◌, if◌then◌else◌, none, some, ◌∷◌, set, ◌≡◌,
  ◌⊎◌, refl, arith,
}
use native.Mathlib.Nat.{mod-lt}
use gmdb.Lock.Walk.{advance}
use gmdb.Lock.Kernel.{RangeLocks, hold}
use gmdb.Lock.{free_slot, has, Scan, found, pass}
use gmdb.Lock.Locking.{locker}
use gmdb.Lock.Effects.{SameLocks, Faulty, Free}

every_round :
    (R : ℕ → Type 0) (m n idx : ℕ)
    → R idx
    → ((k : ℕ) → k < n → R (advance m k ((idx + 1) % m)))
    → (k : ℕ) → k < suc n
    → R (advance m k idx)
unfolding advance
every_round R m n idx first rest zero h = first
every_round R m n idx first rest (suc k) h = rest k (omega arith)

module _ (os : RangeLocks) where
  -- The state differs from the one at the start by lost attempts only.
  abbrev pub Quiet : Scan os.Kernel → Scan os.Kernel → Type 0
  Quiet s t =
      (t.file ≡ s.file)
      × (t.shared.slots ≡ s.shared.slots)
      × SameLocks os s.shared.kernel t.shared.kernel
      × ((t.first_undecided ≡ s.first_undecided) ⊎ Faulty os)

  abbrev pub Won : ℕ → ℕ → Scan os.Kernel → ℕ → Scan os.Kernel → Type 0
  Won txn pid s i t =
      (has s.file.holds i ≡ false)
      × Free os s.shared.kernel (hold s.file.id) i
      × (t.file ≡ record (s.file) { holds = i ∷ s.file.holds })
      × (t.shared.slots ≡ set s.shared.slots i (record free_slot { txn_id = txn; pid = pid }))
      × ((j : ℕ)
          → locker os t.shared.kernel j
            ≡ (if i == j then some (hold s.file.id) else locker os s.shared.kernel j))

  -- One round from `s'`: slot `i` is taken, or it is passed over, for the reason `R i` where no error
  -- came up.
  pub data BodyDone (s : Scan os.Kernel) (W : ℕ → Scan os.Kernel → Type 0) (R : ℕ → Type 0)
      (s' : Scan os.Kernel) (i : ℕ) (r : Bool × Scan os.Kernel) : Type 0 where
    lost :
        r.0 ≡ false
        → Quiet s r.1
        → (r.1.first_undecided ≡ none → (s'.first_undecided ≡ none) × R i)
        → BodyDone s W R s' i r
    got : r.0 ≡ true → W i r.1 → BodyDone s W R s' i r

  pub data PassDone (s : Scan os.Kernel) (W : ℕ → Scan os.Kernel → Type 0) (R : ℕ → Type 0)
      (m n idx : ℕ) (s' : Scan os.Kernel) (r : Bool × ℕ × Scan os.Kernel) : Type 0 where
    missed :
        r.0 ≡ false
        → r.1 ≡ advance m n idx
        → Quiet s r.2
        → (r.2.first_undecided ≡ none
            → (s'.first_undecided ≡ none) × ((k : ℕ) → k < n → R (advance m k idx)))
        → PassDone s W R m n idx s' r
    hit : r.0 ≡ true → r.1 < m → W r.1 r.2 → PassDone s W R m n idx s' r

  found_lem :
      (s : Scan os.Kernel) (W : ℕ → Scan os.Kernel → Type 0) (R : ℕ → Type 0) (m n idx : ℕ)
      (s' : Scan os.Kernel) (rest : Scan os.Kernel → Bool × ℕ × Scan os.Kernel)
      (r : Bool × Scan os.Kernel)
      → idx < m
      → BodyDone s W R s' idx r
      → ((t : Scan os.Kernel) → Quiet s t → PassDone s W R m n ((idx + 1) % m) t (rest t))
      → PassDone s W R m (suc n) idx s' (found os idx rest r)
  unfolding found advance
  found_lem s W R m n idx s' rest (true, t) below (lost e q why) more = cc
  found_lem s W R m n idx s' rest (true, t) below (got e w) more = hit refl below w
  found_lem s W R m n idx s' rest (false, t) below (got e w) more = cc
  found_lem s W R m n idx s' rest (false, t) below (lost e q why) more = elim (more t q) [
    | hit er lt w ↦ hit er lt w
    | missed er en qr whys ↦ missed er en qr (λ none_yet.
        let (before, visited) = whys none_yet in
        let (start, here_too) = why before in (start, every_round R m n idx here_too visited))
  ]

  pub pass_lem :
      (body : Scan os.Kernel → ℕ → Bool × Scan os.Kernel) (s : Scan os.Kernel)
      (W : ℕ → Scan os.Kernel → Type 0) (R : ℕ → Type 0) (m n idx : ℕ) (s' : Scan os.Kernel)
      → ((t : Scan os.Kernel) (i : ℕ) → Quiet s t → i < m → BodyDone s W R t i (body t i))
      → idx < m
      → Quiet s s'
      → PassDone s W R m n idx s' (pass os body m n idx s')
  unfolding pass advance
  pass_lem body s W R m zero idx s' rounds below quiet =
      missed refl refl quiet (λ e. (e, λ k h. absurd (omega arith)))
  pass_lem body s W R m (suc n) idx s' rounds below quiet =
      found_lem s W R m n idx s' (λ t. pass os body m n ((idx + 1) % m) t) (body s' idx) below
        (rounds s' idx quiet below)
        (λ t q.
          pass_lem body s W R m n ((idx + 1) % m) t rounds (mod-lt (idx + 1) {m = m} (omega arith))
            q)
