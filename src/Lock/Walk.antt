-- ===== src/Lock/Walk.antt =====
-- The walk of AcquireReaderSlot around the table (internal/lock/reader.go).
use gmdb.Common.{ℕ, zero, suc, ◌+◌, ◌-◌, ◌%◌, ◌<◌, ◌≤◌, ◌≡◌, arith}
use native.Mathlib.Nat.{mod-lt, mod-eq_of_lt, mod_self}
use native.Mathlib.Decide.{dec_lt}

-- `n` slots behind `idx`, with wrap-around
unfoldable pub advance : ℕ → ℕ → ℕ → ℕ
advance m zero idx = idx
advance m (suc n) idx = advance m n ((idx + 1) % m)

advance_near : (m n idx : ℕ) → idx + n < m → advance m n idx ≡ idx + n
unfolding advance
advance_near m zero idx near = omega arith
advance_near m (suc n) idx near =
    let next = mod-eq_of_lt {n = idx + 1} {m = m} (omega arith) in
    rw next (omega (arith, advance_near m n (idx + 1) (omega arith)))

advance_wrap : (m n idx : ℕ) → idx < m → n ≤ m → m ≤ idx + n → advance m n idx ≡ idx + n - m
unfolding advance
advance_wrap m zero idx below few over = absurd (omega arith)
advance_wrap m (suc n) idx below few over = elim (dec_lt (idx + 1) m) [
  | yes inside ↦
      rw (mod-eq_of_lt inside)
        (omega (arith, advance_wrap m n (idx + 1) inside (omega arith) (omega arith)))
  | no past ↦
      let last : idx + 1 ≡ m = omega arith in
      rw (last, mod_self m) (omega (arith, advance_near m n 0 (omega arith)))
]

-- A walk around the table comes past every slot.
pub advance_reaches : (m idx i : ℕ) → idx < m → i < m → (n : ℕ) × (n < m) × (advance m n idx ≡ i)
advance_reaches m idx i below inside = elim (dec_lt i idx) [
  | no ahead ↦ (i - idx, omega arith, omega (arith, advance_near m (i - idx) idx (omega arith)))
  | yes behind ↦ (
    m - idx + i,
    omega arith,
    omega (arith, advance_wrap m (m - idx + i) idx below (omega arith) (omega arith)),
  )
]

pub advance-below : (m n idx : ℕ) → idx < m → advance m n idx < m
unfolding advance
advance-below m zero idx below = below
advance-below m (suc n) idx below =
    advance-below m n ((idx + 1) % m) (mod-lt (idx + 1) {m = m} (omega arith))
