-- ===== src/Tests/Locks.antt =====
-- A kernel that keeps one lock per offset, for internal/lock/reader.go.
use gmdb.Common.{
  ℕ, zero, suc, ◌+◌, ◌≤◌, ◌==◌, ==_iff, ==_self, Bool, true, false, Bool-cases, if◌then◌else◌,
  Option, none, some, ◌≡◌, ◌≢◌, ◌⊎◌, inl, inr, refl, sym, ◌∙◌, ap, arith,
}
use gmdb.Lock.Kernel.{RangeLocks, Description, hold, probe, Attempt, granted, contended, failed}
use gmdb.Lock.Locking.{locker}

abbrev pub same : Description → Description → Bool
same (hold a) (hold b) = a == b
same (probe a) (probe b) = a == b
same _ _ = false

same_lem : (a b : Description) → same a b ≡ true → a ≡ b
same_lem (hold a) (hold b) e = ap (λ (n : ℕ). hold n) ((==_iff a b).0 e)
same_lem (probe a) (probe b) e = ap (λ (n : ℕ). probe n) ((==_iff a b).0 e)
same_lem (hold a) (probe b) e = cc
same_lem (probe a) (hold b) e = cc

some_lem : {a b : Description} → some a ≡ some b → a ≡ b
some_lem e = cc

same_self : (a : Description) → same a a ≡ true
same_self (hold a) = ==_self a
same_self (probe a) = ==_self a

abbrev pub Table : Type 0
Table = ℕ → Option Description

abbrev pub holder : Table → ℕ → ℕ → Option Description
holder k off zero = none
holder k off (suc len) = k off

abbrev pub put_lock : Table → ℕ → Option Description → Table
put_lock k off o = λ at. if off == at then o else k at

abbrev pub attempt : Option Description → Table → Description → ℕ → Attempt × Table
attempt none k d off = (granted, put_lock k off (some d))
attempt (some e) k d off = (if same e d then granted else contended, k)

abbrev pub try_range : Table → Description → ℕ → ℕ → Attempt × Table
try_range k d off zero = (failed 22, k)
try_range k d off (suc len) = attempt (k off) k d off

abbrev pub drop : Option Description → Description → Option Description
drop none d = none
drop (some e) d = if same e d then none else some e

attempt_free :
    (o : Option Description) (k : Table) (d : Description) (off : ℕ)
    → (attempt o k d off).0 ≡ granted
    → (o ≡ none) ⊎ (o ≡ some d)
attempt_free none k d off e = inl refl
attempt_free (some c) k d off e = elim (Bool-cases (same c d)) [
  | inl mine ↦ inr (ap (λ (x : Description). some x) (same_lem c d mine))
  | inr other ↦ cc (e, ap (λ (b : Bool). if b then granted else contended) other)
]

attempt_held :
    (o : Option Description) (k : Table) (d : Description) (off : ℕ)
    → k off ≡ o
    → (attempt o k d off).0 ≡ granted
    → (attempt o k d off).1 off ≡ some d
attempt_held none k d off at e = rw (==_self off) refl
attempt_held (some c) k d off at e = elim (Bool-cases (same c d)) [
  | inl mine ↦ (at ∙ ap (λ (x : Description). some x) (same_lem c d mine))
  | inr other ↦ cc (e, ap (λ (b : Bool). if b then granted else contended) other)
]

attempt_refused :
    (o : Option Description) (k : Table) (d : Description) (off : ℕ)
    → (attempt o k d off).0 ≢ granted
    → (attempt o k d off).1 off ≡ k off
attempt_refused none k d off ne = absurd (ne refl)
attempt_refused (some c) k d off ne = refl

attempt_contended :
    (o : Option Description) (k : Table) (d : Description) (off : ℕ)
    → (attempt o k d off).0 ≡ contended
    → (c : Description) × (o ≡ some c) × (c ≢ d)
attempt_contended none k d off e = cc
attempt_contended (some c) k d off e = elim (Bool-cases (same c d)) [
  | inl mine ↦ cc (e, ap (λ (b : Bool). if b then granted else contended) mine)
  | inr other ↦ (c, refl, λ h. cc (other, same_self c, ap (λ (x : Description). same c x) h))
]

attempt_elsewhere :
    (o : Option Description) (k : Table) (d : Description) (off at : ℕ)
    → (off == at) ≡ false
    → (attempt o k d off).1 at ≡ k at
attempt_elsewhere none k d off at apart = rw apart refl
attempt_elsewhere (some c) k d off at apart = refl

drop_gone : (o : Option Description) (d : Description) → drop o d ≢ some d
drop_gone none d e = cc
drop_gone (some c) d e = elim (Bool-cases (same c d)) [
  | inl mine ↦ cc (e, ap (λ (b : Bool). if b then none else some c) mine)
  | inr other ↦ cc (e, ap (λ (b : Bool). if b then none else some c) other, other, same_self c)
]

drop_keeps :
    (o : Option Description) (d e : Description)
    → e ≢ d
    → (drop o d ≡ some e → o ≡ some e) × (o ≡ some e → drop o d ≡ some e)
drop_keeps none d e ne = (λ h. h, λ h. h)
drop_keeps (some c) d e ne = elim (Bool-cases (same c d)) [
  | inl mine ↦ (
    λ h. cc (h, ap (λ (b : Bool). if b then none else some c) mine),
    λ h. absurd (ne (sym (some_lem h) ∙ same_lem c d mine)),
  )
  | inr other ↦ rw other (λ h. h, λ h. h)
]

pub granted_free :
    (k : Table) (d : Description) (off len : ℕ)
    → (try_range k d off len).0 ≡ granted
    → (holder k off len ≡ none) ⊎ (holder k off len ≡ some d)
granted_free k d off zero e = inl refl
granted_free k d off (suc len) e = attempt_free (k off) k d off e

pub granted_held :
    (k : Table) (d : Description) (off len : ℕ)
    → (try_range k d off len).0 ≡ granted
    → holder (try_range k d off len).1 off len ≡ some d
granted_held k d off zero e = cc
granted_held k d off (suc len) e = attempt_held (k off) k d off refl e

pub refused_same :
    (k : Table) (d : Description) (off len : ℕ)
    → (try_range k d off len).0 ≢ granted
    → holder (try_range k d off len).1 off len ≡ holder k off len
refused_same k d off zero ne = refl
refused_same k d off (suc len) ne = attempt_refused (k off) k d off ne

pub contended_held :
    (k : Table) (d : Description) (off len : ℕ)
    → (try_range k d off len).0 ≡ contended
    → (e : Description) × (holder k off len ≡ some e) × (e ≢ d)
contended_held k d off zero e = cc
contended_held k d off (suc len) e = attempt_contended (k off) k d off e

apart_lem : (off len at : ℕ) → ((off + suc len ≤ at) ⊎ (at + suc len ≤ off)) → (off == at) ≡ false
apart_lem off len at h = ground arith

pub try_elsewhere :
    (k : Table) (d : Description) (off len at : ℕ)
    → ((off + len ≤ at) ⊎ (at + len ≤ off))
    → holder (try_range k d off len).1 at len ≡ holder k at len
try_elsewhere k d off zero at h = refl
try_elsewhere k d off (suc len) at h = attempt_elsewhere (k off) k d off at (apart_lem off len at h)

pub unlock_free :
    (k : Table) (d : Description) (off len : ℕ)
    → holder k off len ≡ some d
    → holder (put_lock k off none) off len ≡ none
unlock_free k d off zero e = refl
unlock_free k d off (suc len) e = rw (==_self off) refl

pub unlock_elsewhere :
    (k : Table) (d : Description) (off len at : ℕ)
    → ((off + len ≤ at) ⊎ (at + len ≤ off))
    → holder (put_lock k off none) at len ≡ holder k at len
unlock_elsewhere k d off zero at h = refl
unlock_elsewhere k d off (suc len) at h = rw (apart_lem off len at h) refl

pub close_drops :
    (k : Table) (d : Description) (off len : ℕ) → holder (λ at. drop (k at) d) off len ≢ some d
close_drops k d off zero e = cc
close_drops k d off (suc len) e = drop_gone (k off) d e

pub close_keeps :
    (k : Table) (d e : Description) (off len : ℕ)
    → e ≢ d
    → (holder (λ at. drop (k at) d) off len ≡ some e → holder k off len ≡ some e)
      × (holder k off len ≡ some e → holder (λ at. drop (k at) d) off len ≡ some e)
close_keeps k d e off zero ne = (λ h. h, λ h. h)
close_keeps k d e off (suc len) ne = drop_keeps (k off) d e ne

abbrev pub locks : RangeLocks
locks = record {
  Kernel = Table;
  holder = holder;
  try_exclusive_range = try_range;
  unlock_range = λ k d off len. put_lock k off none;
  close = λ k d. λ at. drop (k at) d;
  granted_free = granted_free;
  granted_held = granted_held;
  refused_same = refused_same;
  contended_held = contended_held;
  try_elsewhere = try_elsewhere;
  unlock_free = unlock_free;
  unlock_elsewhere = unlock_elsewhere;
  close_drops = close_drops;
  close_keeps = close_keeps;
}

abbrev pub unlocked : Table
unlocked = λ at. none

pub no_locks : (i : ℕ) → locker locks unlocked i ≡ none
unfolding locker
no_locks i = refl
