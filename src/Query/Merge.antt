-- ===== src/Query/Merge.antt =====
-- unionMerge of query/combiners.go gives the tail the union of its branches, in the order of the keys.
use gmdb.Common.{
  ℕ, zero, suc, ◌<◌, Bool, true, false, Bool-cases, Option-cases, Option, none, some, List, [], ◌∷◌,
  Bytes, All, length, get_or, ◌≡◌, inl, inr, refl, sym, ◌∙◌, ap, arith,
}
use mathlib.Core.Path.{subst}
use gmdb.Common.Count.{total}
use gmdb.Common.ByteOrder.{IsSorted}
use gmdb.Query.{
  Branch, no_branch, Done, Meter, Failure, pulled, leaf_error, is_last, at_row, advanced,
  after_pull, merge_turn, merge_loop, union_merge, union_drive, merged, leaf_drive, min_from,
}
use gmdb.Query.Keys.{is_last-cases}
use gmdb.Query.Minimum.{rows_of, min_from-head}
use gmdb.Query.Heads.{
  In, keys, Ready, Merges, rest_of, rest_of-Ready, Merges-again, Merges-new, Merges-none,
  drained_all, shrinks, least_head, first_pulls_fine, All-imp,
}

module _ {A T : Type 0} (tail : T → A → Bool × T) where
  -- The tail, fed with rows until it stops.
  unfoldable pub fed : List (Bytes × A) → T → T
  fed rows t = (leaf_drive (λ s r. tail s r.1) rows t).1

  abbrev pub ended : T → Meter → Done T
  ended t m = record { state = t; error = none; meter = m }

  at_row-last :
      (last : Option Bytes) (r : Bytes × A) (t : T)
      → is_last last r.0 ≡ true
      → at_row tail last r t ≡ (true, t)
  unfolding at_row
  at_row-last last r t dup = rw dup refl

  at_row-new :
      (last : Option Bytes) (r : Bytes × A) (t : T)
      → is_last last r.0 ≡ false
      → at_row tail last r t ≡ tail t r.1
  unfolding at_row
  at_row-new last r t new = rw new refl

  -- What the loop has done from a state on.
  abbrev Merged : Option (Done T) → Meter → List (Branch A) → Option Bytes → T → Type 0
  Merged out m hs last t =
      (rows : List (Bytes × A)) × (out
        ≡ some (record { state = fed rows t; error = none; meter = m }))
      × Merges hs last rows

  merge_turn_at :
      (next : List (Branch A) → Option Bytes → T → Option (Done T)) (m : Meter)
      (hs : List (Branch A)) (last : Option Bytes) (t : T) (i : ℕ) (pk : Bytes) (r : Bytes × A)
      (left : List (Bytes × A))
      → rows_of hs i ≡ r ∷ left
      → merge_turn tail next m hs last t (some (i, pk))
        ≡ advanced tail next m hs i left r (at_row tail last r t)
  unfolding merge_turn
  merge_turn_at next m hs last t i pk r left at = rw (merge_turn, at) refl

  advanced_on :
      (next : List (Branch A) → Option Bytes → T → Option (Done T)) (m : Meter)
      (hs : List (Branch A)) (i : ℕ) (left : List (Bytes × A)) (r : Bytes × A) (p : Bool × T)
      → (get_or hs i no_branch).failure ≡ none
      → p.0 ≡ true
      → advanced tail next m hs i left r p ≡ next (rest_of hs i left) (some r.0) p.1
  unfolding advanced pulled leaf_error after_pull
  advanced_on next m hs i left r (false, t) fine go = cc
  advanced_on next m hs i [] r (true, t) fine go =
      ap
        (λ (o : Option ℕ). after_pull tail m t (next (rest_of hs i []) (some r.0) t) (leaf_error o))
        fine
  advanced_on next m hs i (q ∷ left) r (true, t) fine go = refl

  advanced_off :
      (next : List (Branch A) → Option Bytes → T → Option (Done T)) (m : Meter)
      (hs : List (Branch A)) (i : ℕ) (left : List (Bytes × A)) (r : Bytes × A) (p : Bool × T)
      → p.0 ≡ false
      → advanced tail next m hs i left r p ≡ some (record { state = p.1; error = none; meter = m })
  unfolding advanced
  advanced_off next m hs i left r (false, t) stop = refl
  advanced_off next m hs i left r (true, t) stop = cc

  pub fed-on :
      (r : Bytes × A) (rows : List (Bytes × A)) (t : T)
      → (tail t r.1).0 ≡ true
      → fed (r ∷ rows) t ≡ fed rows (tail t r.1).1
  unfolding fed leaf_drive
  fed-on r rows t go = rw (fed, leaf_drive, go) refl

  pub fed-off :
      (r : Bytes × A) (rows : List (Bytes × A)) (t : T)
      → (tail t r.1).0 ≡ false
      → fed (r ∷ rows) t ≡ (tail t r.1).1
  unfolding fed leaf_drive
  fed-off r rows t stop = rw (fed, leaf_drive, stop) refl

  turn_lem :
      (next : List (Branch A) → Option Bytes → T → Option (Done T)) (m : Meter)
      (hs : List (Branch A)) (last : Option Bytes) (t : T) (i : ℕ) (pk : Bytes) (r : Bytes × A)
      (left : List (Bytes × A))
      → rows_of hs i ≡ r ∷ left
      → i < length hs
      → Ready hs last
      → ((t' : T)
          → Merged (next (rest_of hs i left) (some r.0) t') m (rest_of hs i left) (some r.0) t')
      → Merged (merge_turn tail next m hs last t (some (i, pk))) m hs last t
  turn_lem next m hs last t i pk r left at inside ready more =
      let step = merge_turn_at next m hs last t i pk r left at in
      elim (is_last-cases last r.0) [
        | inl (dup, again) ↦
            let (rows, e, merges) = more t in
            (
              rows,
              step
                  ∙ ap (λ (p : Bool × T). advanced tail next m hs i left r p)
                      (at_row-last last r t dup)
                  ∙ advanced_on next m hs i left r (true, t) (ready.sound i) refl
                  ∙ e,
              Merges-again hs last i r left rows inside at again merges,
            )
        | inr (new, fresh) ↦
            let (rows, e, merges) = more (tail t r.1).1 in
            (
              r ∷ rows,
              step
                  ∙ ap (λ (p : Bool × T). advanced tail next m hs i left r p)
                      (at_row-new last r t new)
                  ∙ elim (Bool-cases (tail t r.1).0) [
                    | inl go ↦
                        advanced_on next m hs i left r (tail t r.1) (ready.sound i) go
                        ∙ e
                        ∙ ap (λ (x : T). some (ended x m)) (sym (fed-on r rows t go))
                    | inr stop ↦
                        advanced_off next m hs i left r (tail t r.1) stop
                        ∙ ap (λ (x : T). some (ended x m)) (sym (fed-off r rows t stop))
                  ],
              Merges-new hs last i r left rows ready inside at fresh merges,
            )
      ]

  merge_loop_lem :
      (n : ℕ) (m : Meter) (hs : List (Branch A)) (last : Option Bytes) (t : T)
      → total (λ (b : Branch A). length b.rows) hs < n
      → Ready hs last
      → Merged (merge_loop tail n m hs last t) m hs last t
  unfolding merge_loop merge_turn fed leaf_drive
  merge_loop_lem zero m hs last t enough ready = absurd (omega arith)
  merge_loop_lem (suc n) m hs last t enough ready = elim (Option-cases (min_from hs 0 none)) [
    | inl none_left ↦
        ([], rw (merge_turn, none_left) refl, Merges-none hs last (λ j. drained_all hs j none_left))
    | inr ((i, pk), found) ↦ elim (min_from-head hs 0 i none pk found) [
      | inl start ↦ cc (start)
      | inr (j, at, (r, left, inside, rows, key)) ↦
          let place : j ≡ i = omega arith in
          let here : rows_of hs i ≡ r ∷ left =
            subst (λ (k : ℕ). rows_of hs k ≡ r ∷ left) place rows in
          let within : i < length hs = omega (arith, inside) in
          subst
            (λ (o : Option (ℕ × Bytes)).
              Merged
                (merge_turn tail (λ hs' last' t'. merge_loop tail n m hs' last' t') m hs last t o) m
                hs last t)
            (sym found)
            (turn_lem (λ hs' last' t'. merge_loop tail n m hs' last' t') m hs last t i pk r left
              here within ready
              (λ t'.
                merge_loop_lem n m (rest_of hs i left) (some r.0) t'
                  (shrinks n hs i r left enough within here)
                  (rest_of-Ready hs last i r left ready within here
                    (λ j' q rest h. least_head hs i r pk found key j' q rest h))))
    ]
  ]

  -- On branches with strictly ascending keys that do not fail, the merge arm of unionDrive, with fuel for
  -- more turns than there are rows, ends without an error and has fed the tail, until it stopped, with
  -- rows in strictly ascending order of the keys, each a row of a branch; and each key of a branch is
  -- among them.
  pub union_drive-merge :
      (fuel : ℕ) (m : Meter) (hs : List (Branch A)) (t : T)
      → total (λ (b : Branch A). length b.rows) hs < fuel
      → ((j : ℕ) → IsSorted (keys (rows_of hs j)))
      → ((j : ℕ) → (get_or hs j no_branch).failure ≡ none)
      → (rows : List (Bytes × A)) × (union_drive tail fuel m (merged hs) t
          ≡ some (ended (fed rows t) m))
        × IsSorted (keys rows)
        × ((r : Bytes × A) → In r rows → (j : ℕ) × In r (rows_of hs j))
        × ((j : ℕ) → All (λ pk. In pk (keys rows)) (keys (rows_of hs j)))
  unfolding union_drive union_merge after_pull merge_loop
  union_drive-merge fuel m hs t enough sorted fine =
      let ready : Ready hs none = record {
        sorted = sorted;
        behind = λ j l e. cc (e);
        sound = fine;
      } in
      let (rows, e, merges) = merge_loop_lem fuel m hs none t enough ready in
      (
        rows,
        ap (λ (o : Option Failure). after_pull tail m t (merge_loop tail fuel m hs none t) o)
              (first_pulls_fine hs fine)
            ∙ e,
        merges.ascending,
        merges.drawn,
        λ j.
            All-imp _ _ (λ k c. elim c [ inl h ↦ h | inr no_last ↦ cc (no_last) ]) _
              (merges.complete j),
      )
