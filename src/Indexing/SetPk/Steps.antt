-- ===== src/Indexing/SetPk/Steps.antt =====
-- One round of each loop of internal/indexing/setpk.go.
use gmdb.Common.{
  ℕ, suc, [], ◌∷◌, ◌++◌, ◌≤◌, Bytes, Option, none, some, ◌≡◌, refl, ap, arith, append_assoc,
}
use gmdb.Indexing.SetPk.{halves, split_loop, keep, finish, extract_loop}

pub split_separator : (rest front : Bytes) → split_loop (0 ∷ 1 ∷ rest) front ≡ halves front rest
unfolding split_loop
split_separator rest front = refl

pub split_pair :
    (rest front : Bytes)
    → split_loop (0 ∷ 0xff ∷ rest) front ≡ split_loop rest (front ++ 0 ∷ 0xff ∷ [])
unfolding split_loop
split_pair rest front = refl

pub split_plain :
    (b : ℕ) (rest front : Bytes)
    → split_loop (suc b ∷ rest) front ≡ split_loop rest (front ++ suc b ∷ [])
unfolding split_loop
split_plain b [] front = refl
split_plain b (n ∷ rest) front = ground arith

pub keep-append : (pk : Option Bytes) (bs cs : Bytes) → keep (keep pk bs) cs ≡ keep pk (bs ++ cs)
unfolding keep
keep-append none bs cs = refl
keep-append (some pk) bs cs = ap some (append_assoc pk bs cs)

module _ (columns : ℕ) where
  pub extract_plain :
      (b : ℕ) (rest : Bytes) (t : ℕ) (pk : Option Bytes)
      → extract_loop columns (suc b ∷ rest) t pk
        ≡ extract_loop columns rest t (keep pk (suc b ∷ []))
  unfolding extract_loop
  extract_plain b [] t pk = refl
  extract_plain b (n ∷ rest) t pk = ground arith

  pub extract_pair :
      (rest : Bytes) (t : ℕ) (pk : Option Bytes)
      → extract_loop columns (0 ∷ 0xff ∷ rest) t pk
        ≡ extract_loop columns rest t (keep pk (0 ∷ 0xff ∷ []))
  unfolding extract_loop
  extract_pair rest t pk = refl

  pub extract_separator :
      (rest : Bytes) (t : ℕ) (pk : Option Bytes)
      → extract_loop columns (0 ∷ 1 ∷ rest) t pk
        ≡ extract_loop columns rest t (keep pk (0 ∷ 1 ∷ []))
  unfolding extract_loop
  extract_separator rest t pk = refl

  pub extract_start :
      (rest : Bytes) (t : ℕ) (pk : Option Bytes)
      → suc t ≡ columns
      → extract_loop columns (0 ∷ 0 ∷ rest) t pk ≡ extract_loop columns rest columns (some [])
  unfolding extract_loop
  extract_start rest t pk h = ground arith

  pub extract_before :
      (rest : Bytes) (t : ℕ)
      → suc (suc t) ≤ columns
      → extract_loop columns (0 ∷ 0 ∷ rest) t none ≡ extract_loop columns rest (suc t) none
  unfolding extract_loop
  extract_before rest t h = ground arith

  pub extract_end :
      (rest pk : Bytes) → extract_loop columns (0 ∷ 0 ∷ rest) columns (some pk) ≡ finish (some pk)
  unfolding extract_loop
  extract_end rest pk = ground arith
