-- ===== src/Lock/Kernel.antt =====
-- The byte-range locks that internal/flock/range_linux.go asks of the kernel, as a parameter: what
-- internal/lock/reader.go relies on is the documented behaviour of open-file-description locks.
use gmdb.Common.{ℕ, ◌+◌, ◌≤◌, ◌≡◌, ◌≢◌, ◌⊎◌, Option, none, some}

-- The open file descriptions on the lock file that the n-th handle locks through: `rangeLocks`' fields.
pub data Description : Type 0 where
  hold probe : ℕ → Description

-- What TryExclusiveRange comes back with, as ErrRangeContended classifies it: nil, contention, or
-- another error.
pub data Attempt : Type 0 where
  granted contended : Attempt
  failed : ℕ → Attempt

pub record RangeLocks : Type 1 where
  pub Kernel : Type 0
  -- the description whose lock covers the `length` bytes at an offset
  pub holder : Kernel → ℕ → ℕ → Option Description
  pub try_exclusive_range : Kernel → Description → ℕ → ℕ → Attempt × Kernel
  pub unlock_range : Kernel → Description → ℕ → ℕ → Kernel
  -- the exit of the process closes a description
  pub close : Kernel → Description → Kernel
  pub granted_free :
      (k : Kernel) (d : Description) (off len : ℕ)
      → (try_exclusive_range k d off len).0 ≡ granted
      → (holder k off len ≡ none) ⊎ (holder k off len ≡ some d)
  pub granted_held :
      (k : Kernel) (d : Description) (off len : ℕ)
      → (try_exclusive_range k d off len).0 ≡ granted
      → holder (try_exclusive_range k d off len).1 off len ≡ some d
  pub refused_same :
      (k : Kernel) (d : Description) (off len : ℕ)
      → (try_exclusive_range k d off len).0 ≢ granted
      → holder (try_exclusive_range k d off len).1 off len ≡ holder k off len
  pub contended_held :
      (k : Kernel) (d : Description) (off len : ℕ)
      → (try_exclusive_range k d off len).0 ≡ contended
      → (e : Description) × (holder k off len ≡ some e) × (e ≢ d)
  pub try_elsewhere :
      (k : Kernel) (d : Description) (off len at : ℕ)
      → ((off + len ≤ at) ⊎ (at + len ≤ off))
      → holder (try_exclusive_range k d off len).1 at len ≡ holder k at len
  pub unlock_free :
      (k : Kernel) (d : Description) (off len : ℕ)
      → holder k off len ≡ some d
      → holder (unlock_range k d off len) off len ≡ none
  pub unlock_elsewhere :
      (k : Kernel) (d : Description) (off len at : ℕ)
      → ((off + len ≤ at) ⊎ (at + len ≤ off))
      → holder (unlock_range k d off len) at len ≡ holder k at len
  pub close_drops :
      (k : Kernel) (d : Description) (off len : ℕ) → holder (close k d) off len ≢ some d
  pub close_keeps :
      (k : Kernel) (d e : Description) (off len : ℕ)
      → e ≢ d
      → (holder (close k d) off len ≡ some e → holder k off len ≡ some e)
        × (holder k off len ≡ some e → holder (close k d) off len ≡ some e)
