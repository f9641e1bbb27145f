-- ===== src/Tests/Query.antt =====
-- query/combiners.go on two leaves that share a row.
use gmdb.Common.{
  ℕ, true, none, some, List, [], ◌∷◌, ◌++◌, Bool, Bytes, All, length, ◌≡◌, refl, arith, get_or,
  zero, suc, inl, inr, ◌<◌, ◌+◌, ◌≤◌,
}
use gmdb.Common.Order.{compare_bytes}
use gmdb.Common.Count.{total}
use gmdb.Common.ByteOrder.{IsSorted}
use gmdb.Query.{
  Branch, no_branch, Leaf, plain, expanded, merged, hashed, leaf_failure, Meter, Done, union_drive,
  intersect_drive,
}
use gmdb.Query.Minimum.{rows_of}
use gmdb.Query.Heads.{In, keys}
use gmdb.Query.Merge.{fed, ended, union_drive-merge}
use gmdb.Query.Firsts.{first_of}
use gmdb.Query.Hash.{all_rows, all_bytes, no_leaf, union_drive-first_of}
use gmdb.Query.Intersect.{common, intersect_drive-common}

abbrev odd_leaf : Branch ℕ
odd_leaf = record { rows = ((1 ∷ []), 10) ∷ ((3 ∷ []), 30) ∷ []; failure = none }

abbrev late_leaf : Branch ℕ
late_leaf = record { rows = ((2 ∷ []), 20) ∷ ((3 ∷ []), 30) ∷ []; failure = none }

abbrev leaves : List (Branch ℕ)
leaves = odd_leaf ∷ late_leaf ∷ []

abbrev no_budget : Meter
no_budget = record { limit = 0; used = 0 }

-- A tail that keeps every row.
abbrev collect : List ℕ → ℕ → Bool × List ℕ
collect t a = (true, t ++ (a ∷ []))

few_rows : total (λ (b : Branch ℕ). length b.rows) leaves < 5
unfolding total
few_rows = omega arith

leaves-IsSorted : (j : ℕ) → IsSorted (keys (rows_of leaves j))
unfolding keys compare_bytes
leaves-IsSorted zero = ((refl, tt), (tt, tt))
leaves-IsSorted (suc zero) = ((refl, tt), (tt, tt))
leaves-IsSorted (suc (suc j)) = tt

leaves_fine : (j : ℕ) → (get_or leaves j no_branch).failure ≡ none
leaves_fine zero = refl
leaves_fine (suc zero) = refl
leaves_fine (suc (suc j)) = refl

union_drive-merge_example :
    (rows : List (Bytes × ℕ)) × (union_drive collect 5 no_budget (merged leaves) []
      ≡ some (ended collect (fed collect rows []) no_budget))
    × IsSorted (keys rows)
    × ((r : Bytes × ℕ) → In r rows → (j : ℕ) × In r (rows_of leaves j))
    × ((j : ℕ) → All (λ pk. In pk (keys rows)) (keys (rows_of leaves j)))
union_drive-merge_example =
    union_drive-merge collect 5 no_budget leaves [] few_rows leaves-IsSorted leaves_fine

-- A leaf that needs dedup: key 3 comes up twice, and the row of key 4 has vanished.
abbrev union_leaves : List (Leaf ℕ)
union_leaves =
    plain odd_leaf
    ∷ expanded (((3 ∷ []), some 30) ∷ ((3 ∷ []), some 30) ∷ ((4 ∷ []), none) ∷ []) none
    ∷ []

union_leaves_fine : (j : ℕ) → leaf_failure (get_or union_leaves j no_leaf) ≡ none
unfolding leaf_failure
union_leaves_fine zero = refl
union_leaves_fine (suc zero) = refl
union_leaves_fine (suc (suc j)) = refl

enough : 0 + all_bytes union_leaves ≤ 8
unfolding all_bytes gmdb.Query.Firsts.key_bytes
enough = omega arith

union_drive-first_of_example :
    (out : Done (List ℕ)) × (union_drive collect 0
        (record { limit = 8; used = 0 })
        (hashed union_leaves)
        []
      ≡ some out)
    × (out.state ≡ fed collect (first_of [] (all_rows union_leaves)) [])
    × (out.error ≡ none)
union_drive-first_of_example =
    union_drive-first_of collect 0 (record { limit = 8; used = 0 }) union_leaves [] (inr enough)
      union_leaves_fine

intersect_drive-common_example :
    ((intersect_drive collect no_budget odd_leaf late_leaf []).state
      ≡ fed collect (common (keys odd_leaf.rows) late_leaf.rows) [])
    × ((intersect_drive collect no_budget odd_leaf late_leaf []).error ≡ none)
intersect_drive-common_example =
    intersect_drive-common collect no_budget odd_leaf late_leaf [] (inl refl) refl refl
