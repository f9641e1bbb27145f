-- ===== src/Query/Heads.antt =====
-- The heads of unionMerge (query/combiners.go), and what is merged of them before and behind a pull.
use gmdb.Common.{
  ℕ, suc, ◌<◌, true, false, Bool-cases, ◌==◌, ==_iff, Option, none, some, List, [], ◌∷◌, Bytes, All,
  length, get_or, set, get_or-set, ◌≡◌, ◌≢◌, ◌⊎◌, inl, inr, refl, sym, ◌∙◌, ap, arith,
}
use mathlib.Core.Path.{subst}
use gmdb.Common.Count.{total, total-set}
use gmdb.Common.ByteOrder.{IsSorted, Above, Above-trans}
use gmdb.Query.{Branch, no_branch, Failure, pulled, leaf_error, first_pulls, or_error, min_from}
use gmdb.Query.Keys.{some_bytes, Less, AtMost, AtMost-Less}
use gmdb.Query.Minimum.{rows_of, min_from-covers}

module _ {X : Type 0} where
  abbrev pub In : X → List X → Type 0
  In x [] = ⊥
  In x (y ∷ ys) = (x ≡ y) ⊎ In x ys

All-AtMost : (l k : Bytes) (ks : List Bytes) → AtMost l k → Above k ks → All (AtMost l) ks
All-AtMost l k [] h above = tt
All-AtMost l k (x ∷ ks) h above = (inl (AtMost-Less l k x h above.0), All-AtMost l k ks h above.1)

pub All-imp :
    (P Q : Bytes → Type 0) → ((k : Bytes) → P k → Q k) → (ks : List Bytes) → All P ks → All Q ks
All-imp P Q f [] h = tt
All-imp P Q f (k ∷ ks) h = (f k h.0, All-imp P Q f ks h.1)

module _ {A : Type 0} where
  -- The primary keys of rows.
  unfoldable pub keys : List (Bytes × A) → List Bytes
  keys [] = []
  keys (r ∷ rows) = r.0 ∷ keys rows

  -- The heads in front of a turn: every branch is sorted, none is below the last key, none will fail.
  pub record Ready (hs : List (Branch A)) (last : Option Bytes) : Type 0 where
    pub sorted : (j : ℕ) → IsSorted (keys (rows_of hs j))
    pub behind : (j : ℕ) (l : Bytes) → last ≡ some l → All (AtMost l) (keys (rows_of hs j))
    pub sound : (j : ℕ) → (get_or hs j no_branch).failure ≡ none

  -- `rows` are the rows of the branches, each key once and in order, but for the last key.
  pub record Merges (hs : List (Branch A)) (last : Option Bytes) (rows : List (Bytes × A))
      : Type 0 where
    pub ascending : IsSorted (keys rows)
    pub beyond : (l : Bytes) → last ≡ some l → Above l (keys rows)
    pub drawn : (r : Bytes × A) → In r rows → (j : ℕ) × In r (rows_of hs j)
    pub complete : (j : ℕ) → All (λ pk. In pk (keys rows) ⊎ (last ≡ some pk)) (keys (rows_of hs j))

  -- Branch `i` pulled once more.
  abbrev pub rest_of : List (Branch A) → ℕ → List (Bytes × A) → List (Branch A)
  rest_of hs i rows = set hs i (record { rows = rows; failure = (get_or hs i no_branch).failure })

  pub rest_of-at :
      (hs : List (Branch A)) (i j : ℕ) (rows : List (Bytes × A))
      → i < length hs
      → (i == j) ≡ true
      → rows_of (rest_of hs i rows) j ≡ rows
  rest_of-at hs i j rows inside same =
      ap (λ (b : Branch A). b.rows) (get_or-set hs i j _ no_branch inside) ∙ rw same refl

  pub rest_of-other :
      (hs : List (Branch A)) (i j : ℕ) (rows : List (Bytes × A))
      → i < length hs
      → (i == j) ≡ false
      → rows_of (rest_of hs i rows) j ≡ rows_of hs j
  rest_of-other hs i j rows inside other =
      ap (λ (b : Branch A). b.rows) (get_or-set hs i j _ no_branch inside) ∙ rw other refl

  -- A property of what is left of every branch, from the branches before the pull.
  pub each_rest :
      (P : List (Bytes × A) → Type 0) (hs : List (Branch A)) (i j : ℕ) (rows : List (Bytes × A))
      → i < length hs
      → P rows
      → ((i == j) ≡ false → P (rows_of hs j))
      → P (rows_of (rest_of hs i rows) j)
  each_rest P hs i j rows inside at others = elim (Bool-cases (i == j)) [
    | inl same ↦ subst P (sym (rest_of-at hs i j rows inside same)) at
    | inr other ↦ subst P (sym (rest_of-other hs i j rows inside other)) (others other)
  ]

  All-least :
      (l : Bytes) (rows : List (Bytes × A))
      → ((q : Bytes × A) (rest : List (Bytes × A)) → rows ≡ q ∷ rest → AtMost l q.0)
      → IsSorted (keys rows)
      → All (AtMost l) (keys rows)
  unfolding keys
  All-least l [] least sorted = tt
  All-least l (q ∷ rest) least sorted =
      let first = least q rest refl in (first, All-AtMost l q.0 (keys rest) first sorted.0)

  -- The pull keeps the heads ready.
  pub rest_of-Ready :
      (hs : List (Branch A)) (last : Option Bytes) (i : ℕ) (r : Bytes × A) (rows : List (Bytes × A))
      → Ready hs last
      → i < length hs
      → rows_of hs i ≡ r ∷ rows
      → ((j : ℕ) (q : Bytes × A) (rest : List (Bytes × A))
          → rows_of hs j ≡ q ∷ rest
          → AtMost r.0 q.0)
      → Ready (rest_of hs i rows) (some r.0)
  unfolding keys
  rest_of-Ready hs last i r rows ready inside at least =
      let here : IsSorted (keys (r ∷ rows)) =
        subst (λ (l : List (Bytes × A)). IsSorted (keys l)) at (ready.sorted i) in
      record {
        sorted = λ j.
            each_rest (λ l. IsSorted (keys l)) hs i j rows inside here.1 (λ other. ready.sorted j);
        behind = λ j l e.
            subst (λ (k : Bytes). All (AtMost k) (keys (rows_of (rest_of hs i rows) j)))
              (some_bytes e)
              (each_rest (λ x. All (AtMost r.0) (keys x)) hs i j rows inside
                (All-AtMost r.0 r.0 (keys rows) (inr refl) here.0)
                (λ other.
                  All-least r.0 (rows_of hs j) (λ q rest h. least j q rest h) (ready.sorted j)));
        sound = λ j. elim (Bool-cases (i == j)) [
          | inl same ↦
              ap (λ (b : Branch A). b.failure) (get_or-set hs i j _ no_branch inside)
              ∙ rw same (ready.sound i)
          | inr other ↦
              ap (λ (b : Branch A). b.failure) (get_or-set hs i j _ no_branch inside)
              ∙ rw other (ready.sound j)
        ];
      }

  no_head :
      (rows : List (Bytes × A))
      → ((q : Bytes × A) (rest : List (Bytes × A)) → rows ≡ q ∷ rest → ⊥)
      → rows ≡ []
  no_head [] h = refl
  no_head (q ∷ rest) h = absurd (h q rest refl)

  -- Before the pull branch `i` had one row more.
  pub before_pull :
      (P : List (Bytes × A) → Type 0) (hs : List (Branch A)) (i j : ℕ) (r : Bytes × A)
      (left : List (Bytes × A))
      → i < length hs
      → rows_of hs i ≡ r ∷ left
      → (P left → P (r ∷ left))
      → P (rows_of (rest_of hs i left) j)
      → P (rows_of hs j)
  before_pull P hs i j r left inside at one_more h = elim (Bool-cases (i == j)) [
    | inl same ↦
        subst (λ (k : ℕ). P (rows_of hs k)) ((==_iff i j).0 same)
          (subst P (sym at) (one_more (subst P (rest_of-at hs i j left inside same) h)))
    | inr other ↦ subst P (rest_of-other hs i j left inside other) h
  ]

  -- The merge of what the pull leaves, for a row with a key that came before.
  pub Merges-again :
      (hs : List (Branch A)) (last : Option Bytes) (i : ℕ) (r : Bytes × A)
      (left rows : List (Bytes × A))
      → i < length hs
      → rows_of hs i ≡ r ∷ left
      → last ≡ some r.0
      → Merges (rest_of hs i left) (some r.0) rows
      → Merges hs last rows
  unfolding keys
  Merges-again hs last i r left rows inside at again m = record {
    ascending = m.ascending;
    beyond = λ l e. m.beyond l (sym again ∙ e);
    drawn = λ q there.
        let (j, x) = m.drawn q there in
        (j, before_pull (λ l. In q l) hs i j r left inside at (λ h. inr h) x);
    complete = λ j.
        before_pull (λ l. All (λ pk. In pk (keys rows) ⊎ (last ≡ some pk)) (keys l)) hs i j r left
          inside at (λ h. (inr again, h))
          (All-imp _ _ (λ k c. elim c [ inl h ↦ inl h | inr e ↦ inr (again ∙ e) ]) _
            (m.complete j));
  }

  -- The merge of what the pull leaves, for a new row.
  pub Merges-new :
      (hs : List (Branch A)) (last : Option Bytes) (i : ℕ) (r : Bytes × A)
      (left rows : List (Bytes × A))
      → Ready hs last
      → i < length hs
      → rows_of hs i ≡ r ∷ left
      → ((l : Bytes) → last ≡ some l → l ≢ r.0)
      → Merges (rest_of hs i left) (some r.0) rows
      → Merges hs last (r ∷ rows)
  unfolding keys
  Merges-new hs last i r left rows ready inside at fresh m = record {
    ascending = (m.beyond r.0 refl, m.ascending);
    beyond = λ l e.
        let floor : All (AtMost l) (keys (r ∷ left)) =
          subst (λ (x : List (Bytes × A)). All (AtMost l) (keys x)) at (ready.behind i l e) in
        let lt : Less l r.0 = elim floor.0 [
          | inl less ↦ less
          | inr same ↦ absurd (fresh l e same)
        ] in
        (lt, Above-trans l r.0 (keys rows) lt (m.beyond r.0 refl));
    drawn = λ q there. elim there [
      | inl e ↦ (i, subst (λ (x : List (Bytes × A)). In q x) (sym at) (inl e))
      | inr later ↦
          let (j, x) = m.drawn q later in
          (j, before_pull (λ l. In q l) hs i j r left inside at (λ h. inr h) x)
    ];
    complete = λ j.
        before_pull (λ l. All (λ pk. In pk (r.0 ∷ keys rows) ⊎ (last ≡ some pk)) (keys l)) hs i j r
          left inside at (λ h. (inl (inl refl), h))
          (All-imp _ _
            (λ k c. elim c [ inl h ↦ inl (inr h) | inr e ↦ inl (inl (sym (some_bytes e))) ]) _
            (m.complete j));
  }

  pub shrinks :
      (n : ℕ) (hs : List (Branch A)) (i : ℕ) (r : Bytes × A) (left : List (Bytes × A))
      → total (λ (b : Branch A). length b.rows) hs < suc n
      → i < length hs
      → rows_of hs i ≡ r ∷ left
      → total (λ (b : Branch A). length b.rows) (rest_of hs i left) < n
  shrinks n hs i r left enough inside at =
      let sums =
        total-set (λ (b : Branch A). length b.rows) hs i
          (record { rows = left; failure = (get_or hs i no_branch).failure }) no_branch inside in
      let longer : length (rows_of hs i) ≡ suc (length left) =
        ap (λ (l : List (Bytes × A)). length l) at in
      omega (arith, sums, longer, enough)

  pub least_head :
      (hs : List (Branch A)) (i : ℕ) (r : Bytes × A) (pk : Bytes)
      → min_from hs 0 none ≡ some (i, pk)
      → r.0 ≡ pk
      → (j : ℕ) (q : Bytes × A) (rest : List (Bytes × A)) → rows_of hs j ≡ q ∷ rest
      → AtMost r.0 q.0
  least_head hs i r pk found key j q rest h =
      let (k, p, e, le) = min_from-covers hs 0 none j q rest h in
      let same : p ≡ r.0 = cc (found, e, key) in subst (λ (x : Bytes). AtMost x q.0) same le

  pub Merges-none :
      (hs : List (Branch A)) (last : Option Bytes)
      → ((j : ℕ) → rows_of hs j ≡ [])
      → Merges hs last []
  unfolding keys
  Merges-none hs last empty = record {
    ascending = tt;
    beyond = λ l e. tt;
    drawn = λ r there. elim there [ ];
    complete = λ j.
        subst (λ (x : List (Bytes × A)). All (λ pk. In pk [] ⊎ (last ≡ some pk)) (keys x))
          (sym (empty j)) tt;
  }

  pub drained_all : (hs : List (Branch A)) (j : ℕ) → min_from hs 0 none ≡ none → rows_of hs j ≡ []
  drained_all hs j e =
      no_head (rows_of hs j)
        (λ q rest h. let (k, pk, found, le) = min_from-covers hs 0 none j q rest h in cc (e, found))

  pulled_fine :
      (rows : List (Bytes × A)) (o : Option ℕ)
      → o ≡ none
      → pulled (record { rows = rows; failure = o }) ≡ none
  unfolding pulled leaf_error
  pulled_fine [] o fine = ap (λ (x : Option ℕ). leaf_error x) fine
  pulled_fine (r ∷ rows) o fine = refl

  pub first_pulls_fine :
      (hs : List (Branch A))
      → ((j : ℕ) → (get_or hs j no_branch).failure ≡ none)
      → first_pulls hs ≡ none
  unfolding first_pulls or_error
  first_pulls_fine [] fine = refl
  first_pulls_fine (b ∷ bs) fine =
      ap (λ (o : Option Failure). or_error o (first_pulls bs))
        (pulled_fine b.rows b.failure (fine 0))
      ∙ first_pulls_fine bs (λ j. fine (suc j))
