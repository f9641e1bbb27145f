-- ===== src/Query/Intersect.antt =====
-- intersectDrive of query/combiners.go gives the tail the rows of the probe that the build has, too.
use gmdb.Common.{
  ℕ, Bool, true, false, ◌||◌, Bool-cases, if◌then◌else◌, Option, none, some, List, [], ◌∷◌, Bytes,
  length, ◌≡◌, inl, inr, refl, sym, ◌∙◌, ap, arith,
}
use mathlib.Core.Path.{subst}
use gmdb.Query.{
  Branch, Done, Meter, Build, Failure, materialize_limit, charge, same_key, in_set, leaf_error,
  leaf_drive, build_row, probe_row, after_branch, intersect_drive,
}
use gmdb.Query.Heads.{keys}
use gmdb.Query.Merge.{fed, fed-on, fed-off}
use gmdb.Query.Firsts.{Roomy, charge_fits, key_bytes, leaf_drive-on, leaf_drive-off}

or_swap : (a b c : Bool) → (a || (b || c)) ≡ ((b || a) || c)
or_swap a b c = ground arith

or_false : (a : Bool) → (a || false) ≡ a
or_false a = ground arith

if_none : (b : Bool) → ◌≡◌ {A = Option Failure} (if b then none else none) none
if_none true = refl
if_none false = refl

module _ {A : Type 0} where
  -- The rows with a key of a set.
  unfoldable pub common : List Bytes → List (Bytes × A) → List (Bytes × A)
  common ks [] = []
  common ks (r ∷ rows) = elim (in_set r.0 ks) [ true ↦ r ∷ common ks rows | false ↦ common ks rows ]

  common-in :
      (ks : List Bytes) (r : Bytes × A) (rows : List (Bytes × A))
      → in_set r.0 ks ≡ true
      → common ks (r ∷ rows) ≡ r ∷ common ks rows
  unfolding common
  common-in ks r rows there = rw (common, there) refl

  common-out :
      (ks : List Bytes) (r : Bytes × A) (rows : List (Bytes × A))
      → in_set r.0 ks ≡ false
      → common ks (r ∷ rows) ≡ common ks rows
  unfolding common
  common-out ks r rows out = rw (common, out) refl

  build_row-fits :
      (s : Build) (r : Bytes × A)
      → (charge s.meter (length r.0)).0 ≡ true
      → build_row s r
        ≡ (true, record s { keys = r.0 ∷ s.keys; meter = (charge s.meter (length r.0)).1 })
  unfolding build_row
  build_row-fits s r fits = rw fits refl

  -- The build's rows end up in the set, the budget permitting.
  build_lem :
      (rows : List (Bytes × A)) (s : Build)
      → s.tripped ≡ false
      → Roomy s.meter (key_bytes rows)
      → ((leaf_drive build_row rows s).1.tripped ≡ false)
        × ((pk : Bytes)
            → in_set pk (leaf_drive build_row rows s).1.keys
              ≡ (in_set pk (keys rows) || in_set pk s.keys))
  unfolding leaf_drive keys key_bytes in_set
  build_lem [] s live room = (live, λ pk. refl)
  build_lem (r ∷ rows) s live room =
      let (fits, left) = charge_fits s.meter (length r.0) (key_bytes rows) room in
      let next : Build = record s {
        keys = r.0 ∷ s.keys;
        meter = (charge s.meter (length r.0)).1;
      } in
      let row : build_row s r ≡ (true, next) = build_row-fits s r fits in
      let (on, inside) = build_lem rows next live left in
      subst
        (λ (e : Bool × Build).
          (e.1.tripped ≡ false)
          × ((pk : Bytes) → in_set pk e.1.keys ≡ (in_set pk (keys (r ∷ rows)) || in_set pk s.keys)))
        (sym (leaf_drive-on build_row r rows s next row))
        (on, λ pk. inside pk ∙ or_swap (in_set pk (keys rows)) (same_key r.0 pk) (in_set pk s.keys))

module _ {A T : Type 0} (tail : T → A → Bool × T) where
  probe_row-in :
      (ks : List Bytes) (t : T) (r : Bytes × A)
      → in_set r.0 ks ≡ true
      → probe_row tail ks t r ≡ tail t r.1
  unfolding probe_row
  probe_row-in ks t r there = rw there refl

  probe_row-out :
      (ks : List Bytes) (t : T) (r : Bytes × A)
      → in_set r.0 ks ≡ false
      → probe_row tail ks t r ≡ (true, t)
  unfolding probe_row
  probe_row-out ks t r out = rw out refl

  probe_lem :
      (ks build : List Bytes) (rows : List (Bytes × A)) (t : T)
      → ((pk : Bytes) → in_set pk ks ≡ in_set pk build)
      → (leaf_drive (probe_row tail ks) rows t).1 ≡ fed tail (common build rows) t
  unfolding common
  probe_lem ks build [] t same = unfold leaf_drive fed in refl
  probe_lem ks build (r ∷ rows) t same = elim (Bool-cases (in_set r.0 build)) [
    | inr out ↦
        ap (λ (e : Bool × T). e.1)
          (leaf_drive-on (probe_row tail ks) r rows t t (probe_row-out ks t r (same r.0 ∙ out)))
        ∙ probe_lem ks build rows t same
        ∙ ap (λ (x : List (Bytes × A)). fed tail x t) (sym (common-out build r rows out))
    | inl there ↦
        let row = probe_row-in ks t r (same r.0 ∙ there) in
        let whole =
          ap (λ (x : List (Bytes × A)). fed tail x t) (sym (common-in build r rows there)) in
        elim (Bool-cases (tail t r.1).0) [
          | inl go ↦
              ap (λ (e : Bool × T). e.1)
                (leaf_drive-on (probe_row tail ks) r rows t (tail t r.1).1
                  (row ∙ ap (λ (b : Bool). (b, (tail t r.1).1)) go))
              ∙ probe_lem ks build rows (tail t r.1).1 same
              ∙ sym (fed-on tail r (common build rows) t go)
              ∙ whole
          | inr stop ↦
              ap (λ (e : Bool × T). e.1)
                (leaf_drive-off (probe_row tail ks) r rows t (tail t r.1).1
                  (row ∙ ap (λ (b : Bool). (b, (tail t r.1).1)) stop))
              ∙ sym (fed-off tail r (common build rows) t stop)
              ∙ whole
        ]
  ]

  -- Where neither leaf fails and the budget has room for the bytes of the build's keys, intersectDrive
  -- ends without an error and has fed the tail, until it stopped, with the rows of the probe, in their
  -- order, that have a key of the build.
  pub intersect_drive-common :
      (m : Meter) (build probe : Branch A) (t : T)
      → Roomy m (key_bytes build.rows)
      → build.failure ≡ none
      → probe.failure ≡ none
      → ((intersect_drive tail m build probe t).state
          ≡ fed tail (common (keys build.rows) probe.rows) t)
        × ((intersect_drive tail m build probe t).error ≡ none)
  unfolding intersect_drive after_branch leaf_error in_set
  intersect_drive-common m build probe t room built probed =
      let start : Build = record { keys = []; tripped = false; meter = m } in
      let (live, inside) = build_lem build.rows start refl room in
      let set = (leaf_drive build_row build.rows start).1 in
      let out = leaf_drive (probe_row tail set.keys) probe.rows t in
      let done : Done T = record {
        state = out.1;
        error = if out.0 then leaf_error probe.failure else none;
        meter = set.meter;
      } in
      let ran : intersect_drive tail m build probe t ≡ done =
        ap
          (λ (b : Bool).
            if b
            then record { state = t; error = some materialize_limit; meter = set.meter }
            else after_branch tail (record { state = t; error = none; meter = set.meter })
                (leaf_error build.failure) done)
          live
        ∙ ap
            (λ (o : Option ℕ).
              after_branch tail (record { state = t; error = none; meter = set.meter })
                (leaf_error o) done)
            built in
      (
        ap (λ (x : Done T). x.state) ran
            ∙ probe_lem set.keys (keys build.rows) probe.rows t (λ pk. inside pk ∙ or_false _),
        ap (λ (x : Done T). x.error) ran
            ∙ ap (λ (o : Option ℕ). if out.0 then leaf_error o else none) probed
            ∙ if_none out.0,
      )
