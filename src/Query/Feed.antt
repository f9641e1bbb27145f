-- ===== src/Query/Feed.antt =====
-- The callback of unionDrive (query/combiners.go), row by row, and over a leaf without needDedup.
use gmdb.Common.{
  ℕ, ◌+◌, Bool, true, false, not, Bool-cases, if◌then◌else◌, none, List, [], ◌∷◌, ◌++◌, Bytes,
  length, ◌≡◌, ◌⊎◌, inl, inr, refl, sym, ◌∙◌, ap, arith,
}
use mathlib.Core.Path.{subst}
use gmdb.Query.{Drain, charge, in_set, leaf_drive, union_row}
use gmdb.Query.Firsts.{
  Roomy, charge_fits, Roomy-le, first_of, first_of-seen, first_of-new, key_bytes,
}
use gmdb.Query.Merge.{fed, fed-on, fed-off}

module _ {A T : Type 0} (tail : T → A → Bool × T) where
  -- The callback over one branch: the tail has stopped, or it has been fed with what is new there.
  abbrev pub Drained : Drain T → List (Bytes × A) → List (Bytes × A) → ℕ → Drain T → Type 0
  Drained d rows more n e =
      (e.out.error ≡ none)
      × (((e.stopped ≡ true)
            × (e.out.state ≡ fed tail (first_of d.seen (rows ++ more)) d.out.state))
          ⊎ ((e.stopped ≡ false)
              × (fed tail (first_of d.seen (rows ++ more)) d.out.state
                  ≡ fed tail (first_of e.seen more) e.out.state)
              × Roomy e.out.meter n))

  -- The callback's state behind a new row.
  abbrev with_row : Drain T → Bytes × A → Drain T
  with_row d r = record {
    seen = r.0 ∷ d.seen;
    stopped = not (tail d.out.state r.1).0;
    out = record (d.out) {
      state = (tail d.out.state r.1).1;
      meter = (charge d.out.meter (length r.0)).1;
    };
  }

  union_row-seen :
      (d : Drain T) (r : Bytes × A) → in_set r.0 d.seen ≡ true → union_row tail d r ≡ (true, d)
  unfolding union_row
  union_row-seen d r dup = rw dup refl

  union_row-new :
      (d : Drain T) (r : Bytes × A)
      → in_set r.0 d.seen ≡ false
      → (charge d.out.meter (length r.0)).0 ≡ true
      → union_row tail d r ≡ ((tail d.out.state r.1).0, with_row d r)
  unfolding union_row
  union_row-new d r new fits = rw (new, fits) refl

  -- The tail goes on, or it stops, behind a new row.
  Drained-on :
      (r : Bytes × A) (rows more : List (Bytes × A)) (n : ℕ) (d e : Drain T)
      → in_set r.0 d.seen ≡ false
      → (tail d.out.state r.1).0 ≡ true
      → Drained (with_row d r) rows more n e
      → Drained d (r ∷ rows) more n e
  Drained-on r rows more n d e new go (fine, out) =
      let first = first_of-new d.seen r (rows ++ more) new in
      let on = fed-on tail r (first_of (r.0 ∷ d.seen) (rows ++ more)) d.out.state go in
      let all = ap (λ (x : List (Bytes × A)). fed tail x d.out.state) first ∙ on in
      (
        fine,
        elim out [
          | inl (stop, state) ↦ inl (stop, state ∙ sym all)
          | inr (live, state, room) ↦ inr (live, all ∙ state, room)
        ],
      )

  -- What follows the callback at one row.
  abbrev pub onward : Bool × Drain T → (Drain T → Drain T) → Drain T
  onward c rest = if c.0 then rest c.1 else c.1

  -- The callback at one row, with what follows it.
  pub row_lem :
      (r : Bytes × A) (rows more : List (Bytes × A)) (k n : ℕ) (d : Drain T)
      (rest : Drain T → Drain T)
      → d.stopped ≡ false
      → d.out.error ≡ none
      → Roomy d.out.meter (length r.0 + k)
      → ((t : Drain T)
          → t.stopped ≡ false
          → t.out.error ≡ none
          → Roomy t.out.meter k
          → Drained t rows more n (rest t))
      → Drained d (r ∷ rows) more n (onward (union_row tail d r) rest)
  row_lem r rows more k n d rest live fine room go_on = elim (Bool-cases (in_set r.0 d.seen)) [
    | inl dup ↦
        let (fine', out) = go_on d live fine (Roomy-le d.out.meter (length r.0) k room) in
        let first =
          ap (λ (x : List (Bytes × A)). fed tail x d.out.state)
            (first_of-seen d.seen r (rows ++ more) dup) in
        subst (λ (c : Bool × Drain T). Drained d (r ∷ rows) more n (onward c rest))
          (sym (union_row-seen d r dup))
          (
            fine',
            elim out [
              | inl (stop, state) ↦ inl (stop, state ∙ sym first)
              | inr (alive, state, left) ↦ inr (alive, first ∙ state, left)
            ],
          )
    | inr new ↦
        let (fits, left) = charge_fits d.out.meter (length r.0) k room in
        let row = union_row-new d r new fits in
        elim (Bool-cases (tail d.out.state r.1).0) [
          | inl go ↦
              subst (λ (c : Bool × Drain T). Drained d (r ∷ rows) more n (onward c rest))
                (sym (row ∙ ap (λ (b : Bool). (b, with_row d r)) go))
                (Drained-on r rows more n d (rest (with_row d r)) new go
                  (go_on (with_row d r) (ap not go) fine left))
          | inr stop ↦
              subst (λ (c : Bool × Drain T). Drained d (r ∷ rows) more n (onward c rest))
                (sym (row ∙ ap (λ (b : Bool). (b, with_row d r)) stop))
                (
                  fine,
                  inl (
                    ap not stop,
                    sym (
                        ap (λ (x : List (Bytes × A)). fed tail x d.out.state)
                          (first_of-new d.seen r (rows ++ more) new)
                        ∙ fed-off tail r _ d.out.state stop),
                  ),
                )
        ]
  ]

  leaf_drive-onward :
      (r : Bytes × A) (rows : List (Bytes × A)) (d : Drain T)
      → (leaf_drive (union_row tail) (r ∷ rows) d).1
        ≡ onward (union_row tail d r) (λ t. (leaf_drive (union_row tail) rows t).1)
  unfolding leaf_drive
  leaf_drive-onward r rows d = elim (Bool-cases (union_row tail d r).0) [
    | inl go ↦ rw go refl
    | inr stop ↦ rw stop refl
  ]

  pub leaf_drive_lem :
      (rows more : List (Bytes × A)) (n : ℕ) (d : Drain T)
      → d.stopped ≡ false
      → d.out.error ≡ none
      → Roomy d.out.meter (key_bytes rows + n)
      → Drained d rows more n (leaf_drive (union_row tail) rows d).1
  unfolding key_bytes
  leaf_drive_lem [] more n d live fine room =
      unfold leaf_drive in
      (fine, inr (live, refl, subst (λ (k : ℕ). Roomy d.out.meter k) (omega arith) room))
  leaf_drive_lem (r ∷ rows) more n d live fine room =
      subst (λ (e : Drain T). Drained d (r ∷ rows) more n e) (sym (leaf_drive-onward r rows d))
        (row_lem r rows more (key_bytes rows + n) n d (λ t. (leaf_drive (union_row tail) rows t).1)
          live fine (subst (λ (k : ℕ). Roomy d.out.meter k) (omega arith) room)
          (λ t live' fine' room'. leaf_drive_lem rows more n t live' fine' room'))
