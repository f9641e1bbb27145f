-- ===== src/Bitmap/Flips.antt =====
-- `Set` and `Clear` on every page (internal/bitmap/bitmap.go).
use gmdb.Common.{
  ℕ, ◌/◌, ◌<◌, true, false, none, some, ◌==◌, if◌then◌else◌, length, ◌≡◌, refl, arith, ◌⊎◌, inl,
  inr, Bool-cases,
}
use gmdb.Bitmap.{Bitmap, test_bit, is_set, allocatable, set_page, clear_page, flip_up, flip_down}
use gmdb.Bitmap.Detail.{test_bit-set_bit, test_bit-clear_bit}
use gmdb.Bitmap.Invariant.{IsValid, IsValid-InRange, flip_up-IsValid, flip_down-IsValid}

flip_up-is_set :
    (b : Bitmap) (p q : ℕ)
    → p / 8 < length b.detail
    → p < b.total_pages
    → is_set (flip_up b p) q ≡ (if p == q then true else is_set b q)
unfolding is_set flip_up
flip_up-is_set b p q h k = ground (arith, test_bit-set_bit b.detail p q h)

flip_down-is_set :
    (b : Bitmap) (p q : ℕ)
    → p / 8 < length b.detail
    → p < b.total_pages
    → is_set (flip_down b p) q ≡ (if p == q then false else is_set b q)
unfolding is_set flip_down
flip_down-is_set b p q h k = ground (arith, test_bit-clear_bit b.detail p q h)

same-is_set :
    (b : Bitmap) (p q : ℕ)
    → p < b.total_pages
    → is_set b q ≡ (if p == q then test_bit b.detail p else is_set b q)
unfolding is_set
same-is_set b p q h = ground arith

allocatable-lt : (b : Bitmap) (p : ℕ) → allocatable b p ≡ true → p < b.total_pages
unfolding allocatable
allocatable-lt b p h = ground arith

-- Set panics exactly on a page that `allocatable` rejects. On any other page of a valid bitmap it
-- keeps the bitmap valid, and thereafter that page is free and every other page is as it was.
pub set_page-is_set :
    (b : Bitmap) (p : ℕ)
    → IsValid b
    → ((allocatable b p ≡ false) × (set_page b p ≡ none))
      ⊎ ((allocatable b p ≡ true)
          × ((c : Bitmap) × (set_page b p ≡ some c)
              × IsValid c
              × ((q : ℕ) → is_set c q ≡ (if p == q then true else is_set b q))))
unfolding set_page
set_page-is_set b p v = elim (Bool-cases (allocatable b p)) [
  | inr f ↦ inl (f, rw f refl)
  | inl t ↦
      let r = IsValid-InRange b p v t in
      let inside = allocatable-lt b p t in
      inr (
        t,
        elim (Bool-cases (test_bit b.detail p)) [
          | inl on ↦ (b, rw (t, on) refl, v, λ q. rw on at (same-is_set b p q inside))
          | inr off ↦ (
            flip_up b p,
            rw (t, off) refl,
            flip_up-IsValid b p v r,
            λ q. flip_up-is_set b p q r.0 inside,
          )
        ],
      )
]

-- Clear panics exactly on a page that `allocatable` rejects. On any other page of a valid bitmap it
-- keeps the bitmap valid, and thereafter that page is in use and every other page is as it was.
pub clear_page-is_set :
    (b : Bitmap) (p : ℕ)
    → IsValid b
    → ((allocatable b p ≡ false) × (clear_page b p ≡ none))
      ⊎ ((allocatable b p ≡ true)
          × ((c : Bitmap) × (clear_page b p ≡ some c)
              × IsValid c
              × ((q : ℕ) → is_set c q ≡ (if p == q then false else is_set b q))))
unfolding clear_page
clear_page-is_set b p v = elim (Bool-cases (allocatable b p)) [
  | inr f ↦ inl (f, rw f refl)
  | inl t ↦
      let r = IsValid-InRange b p v t in
      let inside = allocatable-lt b p t in
      inr (
        t,
        elim (Bool-cases (test_bit b.detail p)) [
          | inl on ↦ (
            flip_down b p,
            rw (t, on) refl,
            flip_down-IsValid b p v r on,
            λ q. flip_down-is_set b p q r.0 inside,
          )
          | inr off ↦ (b, rw (t, off) refl, v, λ q. rw off at (same-is_set b p q inside))
        ],
      )
]
