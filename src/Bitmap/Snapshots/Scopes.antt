-- ===== src/Bitmap/Snapshots/Scopes.antt =====
-- What the pager does to a bitmap between opening a snapshot and resolving it: allocations and frees,
-- hints, dirty-set resets and, nested to any depth, child savepoints that are released or rolled back.
use gmdb.Common.{ℕ, suc, List, [], ◌∷◌, Bool, true, false, Option, none, some, max, ◌≤◌, ◌<◌}
use gmdb.Bitmap.{Snapshot, Bitmap, set_page, clear_page, set_hint, clear_dirty}
use gmdb.Bitmap.Snapshots.{open_snapshot, restore, discard}

infixl 5 ◌>>=◌
abbrev pub ◌>>=◌ : {A B : Type 0} → Option A → (A → Option B) → Option B
none >>= f = none
some a >>= f = f a

mutual
  pub data Step : Type 0 where
    free : ℕ → Step
    allocate : ℕ → Step
    move_hint : ℕ → Step
    reset_dirty : Step
    -- A child savepoint; true is a release, false a rollback.
    child : Bool → Steps → Step

  pub data Steps : Type 0 where
    done : Steps
    next : Step → Steps → Steps

-- An address that no open snapshot has, as the allocator gives for a live object.
unfoldable pub fresh_ref : List Snapshot → ℕ
fresh_ref [] = 0
fresh_ref (s ∷ rest) = suc (max s.ref (fresh_ref rest))

-- `Discard` on a release, `Restore` on a rollback.
unfoldable pub resolve : Bool → Snapshot → Bitmap → Option Bitmap
resolve true s b = discard b s
resolve false s b = restore b s

unfoldable mutual
  pub run_step : Step → Bitmap → Option Bitmap
  run_step (free p) b = set_page b p
  run_step (allocate p) b = clear_page b p
  run_step (move_hint p) b = some (set_hint b p)
  run_step reset_dirty b = some (clear_dirty b)
  run_step (child release body) b =
      let (s, opened) = open_snapshot (fresh_ref b.open_snapshots) b in
      run body opened >>= resolve release s

  pub run : Steps → Bitmap → Option Bitmap
  run done b = some b
  run (next step rest) b = run_step step b >>= λ c. run rest c

-- Every page that the steps free or allocate lies in [first, total).
abbrev mutual
  pub StepIn : ℕ → ℕ → Step → Type 0
  StepIn first total (free p) = (first ≤ p) × (p < total)
  StepIn first total (allocate p) = (first ≤ p) × (p < total)
  StepIn first total (move_hint p) = Unit
  StepIn first total reset_dirty = Unit
  StepIn first total (child release body) = StepsIn first total body

  pub StepsIn : ℕ → ℕ → Steps → Type 0
  StepsIn first total done = Unit
  StepsIn first total (next step rest) = StepIn first total step × StepsIn first total rest
