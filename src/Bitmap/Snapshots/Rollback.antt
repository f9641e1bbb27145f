-- ===== src/Bitmap/Snapshots/Rollback.antt =====
-- A snapshot that is restored puts the whole bitmap back (internal/bitmap/bitmap.go, Snapshot, Restore,
-- Discard), whatever was done in between.
use gmdb.Common.{
  ℕ, ◌≤◌, ◌<◌, List, [], ◌∷◌, ◌++◌, Bool, true, false, Option, some, ◌==◌, length, ◌≡◌, refl, ◌∙◌,
  arith, Bool-cases, inl, inr,
}
use gmdb.Bitmap.{
  Snapshot, Bitmap, test_bit, allocatable, flip_up, flip_down, set_page, clear_page, set_hint,
  clear_dirty,
}
use gmdb.Bitmap.Invariant.{IsValid, IsValid-InRange, flip_up-IsValid, flip_down-IsValid}
use gmdb.Bitmap.Snapshots.{open_snapshot, restore}
use gmdb.Bitmap.Snapshots.Extends.{
  Extends, Extends-refl, Extends-trans, HasOpen, flip_up-Extends, flip_down-Extends,
}
use gmdb.Bitmap.Snapshots.Resolve.{
  restore-Extends, released, released-IsValid, discard-Extends, released-Extends,
}
use gmdb.Bitmap.Snapshots.Scopes.{
  Step, free, allocate, move_hint, reset_dirty, child, Steps, done, next, fresh_ref, resolve,
  run_step, run, StepIn, StepsIn, ◌>>=◌,
}

-- The step does not panic, and leaves a valid bitmap whose log undoes it.
abbrev Outcome : Bitmap → Option Bitmap → Type 0
Outcome b r = (c : Bitmap) × (r ≡ some c) × Extends b c × IsValid c

allocatable_in :
    (b : Bitmap) (p : ℕ) → b.first_data_page ≤ p → p < b.total_pages → allocatable b p ≡ true
unfolding allocatable
allocatable_in b p lo hi = ground arith

set_page-Outcome :
    (b : Bitmap) (p : ℕ) → IsValid b → HasOpen b → allocatable b p ≡ true → Outcome b (set_page b p)
unfolding set_page
set_page-Outcome b p v o a = elim (Bool-cases (test_bit b.detail p)) [
  | inl t ↦ (b, rw (a, t), Extends-refl b, v)
  | inr f ↦ (
    flip_up b p,
    rw (a, f),
    flip_up-Extends b p v o a f,
    flip_up-IsValid b p v (IsValid-InRange b p v a),
  )
]

clear_page-Outcome :
    (b : Bitmap) (p : ℕ)
    → IsValid b
    → HasOpen b
    → allocatable b p ≡ true
    → Outcome b (clear_page b p)
unfolding clear_page
clear_page-Outcome b p v o a = elim (Bool-cases (test_bit b.detail p)) [
  | inl t ↦ (
    flip_down b p,
    rw (a, t),
    flip_down-Extends b p v o a t,
    flip_down-IsValid b p v (IsValid-InRange b p v a) t,
  )
  | inr f ↦ (b, rw (a, f), Extends-refl b, v)
]

set_hint-Outcome : (b : Bitmap) (p : ℕ) → IsValid b → Outcome b (some (set_hint b p))
unfolding set_hint
set_hint-Outcome b p v = (
  _,
  refl,
  record {
    page_size = refl;
    bitmap_pages = refl;
    first_data_page = refl;
    total_pages = refl;
    open_snapshots = refl;
    log = (Extends-refl b).log;
    logged = (Extends-refl b).logged;
    undone = (Extends-refl b).undone;
  },
  record { capacity = v.capacity; summary_size = v.summary_size; exact = v.exact },
)

clear_dirty-Outcome : (b : Bitmap) → IsValid b → Outcome b (some (clear_dirty b))
unfolding clear_dirty
clear_dirty-Outcome b v = elim (Bool-cases (length b.dirty == 0)) [
  | inl e ↦ (b, rw e, Extends-refl b, v)
  | inr ne ↦ (
    record b { dirty = [] },
    rw ne,
    record {
      page_size = refl;
      bitmap_pages = refl;
      first_data_page = refl;
      total_pages = refl;
      open_snapshots = refl;
      log = (Extends-refl b).log;
      logged = (Extends-refl b).logged;
      undone = (Extends-refl b).undone;
    },
    record { capacity = v.capacity; summary_size = v.summary_size; exact = v.exact },
  )
]

opened-IsValid : (b : Bitmap) (ref : ℕ) → IsValid b → IsValid (open_snapshot ref b).1
unfolding open_snapshot
opened-IsValid b ref v = record {
  capacity = v.capacity;
  summary_size = v.summary_size;
  exact = v.exact;
}

snoc_not_empty : (xs : List Snapshot) (s : Snapshot) → (length (xs ++ s ∷ []) == 0) ≡ false
snoc_not_empty [] s = refl
snoc_not_empty (x ∷ xs) s = ground arith

opened-HasOpen : (b : Bitmap) (ref : ℕ) → HasOpen (open_snapshot ref b).1
unfolding open_snapshot
opened-HasOpen b ref = snoc_not_empty b.open_snapshots _

resolve-Outcome :
    (release : Bool) (b c : Bitmap)
    → IsValid b
    → HasOpen b
    → Extends (open_snapshot (fresh_ref b.open_snapshots) b).1 c
    → IsValid c
    → Outcome b (resolve release (open_snapshot (fresh_ref b.open_snapshots) b).0 c)
unfolding resolve
resolve-Outcome true b c v o e w = (
  released c b.open_snapshots,
  discard-Extends b c _ refl o e,
  released-Extends b c _ e,
  released-IsValid c b.open_snapshots w,
)
resolve-Outcome false b c v o e w = (b, restore-Extends b c _ refl e, Extends-refl b, v)

bind-Outcome :
    (b : Bitmap) (r : Option Bitmap) (f : Bitmap → Option Bitmap)
    → Outcome b r
    → ((c : Bitmap) → Extends b c → IsValid c → Outcome c (f c))
    → Outcome b (r >>= f)
bind-Outcome b r f (c, e, x, v) k =
    let (d, e', y, w) = k c x v in (d, rw e e', Extends-trans b c d x y, w)

-- The bitmap's pages are those in [first, total).
abbrev Spans : ℕ → ℕ → Bitmap → Type 0
Spans first total b = (b.first_data_page ≡ first) × (b.total_pages ≡ total)

Spans-allocatable :
    (first total p : ℕ) (b : Bitmap)
    → Spans first total b
    → first ≤ p
    → p < total
    → allocatable b p ≡ true
Spans-allocatable first total p b (hf, ht) lo hi = allocatable_in b p (omega arith) (omega arith)

Spans-later :
    (first total : ℕ) (b c : Bitmap) → Spans first total b → Extends b c → Spans first total c
Spans-later first total b c (hf, ht) e = (e.first_data_page ∙ hf, e.total_pages ∙ ht)

opened-Spans :
    (first total ref : ℕ) (b : Bitmap)
    → Spans first total b
    → Spans first total (open_snapshot ref b).1
unfolding open_snapshot
opened-Spans first total ref b h = h

later-HasOpen : (b c : Bitmap) → HasOpen b → Extends b c → HasOpen c
later-HasOpen b c o e = rw e.open_snapshots o

child-Outcome :
    (release : Bool) (body : Steps) (b : Bitmap)
    → IsValid b
    → HasOpen b
    → Outcome
        (open_snapshot (fresh_ref b.open_snapshots) b).1
        (run body (open_snapshot (fresh_ref b.open_snapshots) b).1)
    → Outcome b (run_step (child release body) b)
unfolding run_step run
child-Outcome release body b v o (c, e, x, w) =
    let (d, e', y, z) = resolve-Outcome release b c v o x w in (d, rw e e', y, z)

mutual
  unfolding run_step run

  step-Outcome :
      (first total : ℕ) (step : Step) (b : Bitmap)
      → StepIn first total step
      → Spans first total b
      → IsValid b
      → HasOpen b
      → Outcome b (run_step step b)
  step-Outcome first total (free p) b (lo, hi) s v o =
      set_page-Outcome b p v o (Spans-allocatable first total p b s lo hi)
  step-Outcome first total (allocate p) b (lo, hi) s v o =
      clear_page-Outcome b p v o (Spans-allocatable first total p b s lo hi)
  step-Outcome first total (move_hint p) b h s v o = set_hint-Outcome b p v
  step-Outcome first total reset_dirty b h s v o = clear_dirty-Outcome b v
  step-Outcome first total (child release body) b h s v o = child-Outcome release body b v o (
      steps-Outcome first total body (open_snapshot (fresh_ref b.open_snapshots) b).1 h
        (opened-Spans first total _ b s) (opened-IsValid b _ v) (opened-HasOpen b _))

  steps-Outcome :
      (first total : ℕ) (steps : Steps) (b : Bitmap)
      → StepsIn first total steps
      → Spans first total b
      → IsValid b
      → HasOpen b
      → Outcome b (run steps b)
  steps-Outcome first total done b h s v o = (b, refl, Extends-refl b, v)
  steps-Outcome first total (next step rest) b (h, hs) s v o =
      bind-Outcome b (run_step step b) (run rest) (step-Outcome first total step b h s v o)
        (λ c e w.
          steps-Outcome first total rest c hs (Spans-later first total b c s e) w
            (later-HasOpen b c o e))

-- On a valid bitmap, open a snapshot, then allocate, free, move the hint, reset the dirty set, and open child savepoints
-- that are released or rolled back, to any depth and in any order, with pages of the data region:
-- nothing panics, and Restore gives back the bitmap of the moment before, field for field.
pub restore-run :
    (b : Bitmap) (steps : Steps)
    → IsValid b
    → StepsIn b.first_data_page b.total_pages steps
    → (c : Bitmap) × (run steps (open_snapshot (fresh_ref b.open_snapshots) b).1 ≡ some c)
      × (restore c (open_snapshot (fresh_ref b.open_snapshots) b).0 ≡ some b)
restore-run b steps v h =
    let (c, e, x, w) =
      steps-Outcome b.first_data_page b.total_pages steps
        (open_snapshot (fresh_ref b.open_snapshots) b).1 h (opened-Spans _ _ _ b (refl, refl))
        (opened-IsValid b _ v) (opened-HasOpen b _) in
    (c, e, restore-Extends b c _ refl x)
