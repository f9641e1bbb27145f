-- ===== src/Query.antt =====
-- query/combiners.go, with the meter of query/ordering.go: the execution of a union and of an
-- intersection of index leaves. What leafDrive (query/query.go) reads of an index is data here: the rows,
-- and the error that it leaves in the query once they are drained; where it drops repeated keys against
-- the budget, that is `dedup_drive`. The caller's tail is a parameter.
pub mod Keys
pub mod Minimum
pub mod Heads
pub mod Merge
pub mod Firsts
pub mod Feed
pub mod Hash
pub mod Intersect
use gmdb.Common.{
  ℕ, zero, suc, ◌+◌, Bool, true, false, not, ltb, leb, ◌==◌, ◌||◌, if◌then◌else◌, Option, none,
  some, List, [], ◌∷◌, Bytes, length, get_or, set,
}
use Prim.Native.Nat.{Ordering}
use gmdb.Common.Order.{compare_bytes}

-- `strings.Compare(a, b) < 0`, and Go's equality of strings.
unfoldable pub is_less : Bytes → Bytes → Bool
is_less a b = elim (compare_bytes a b) [
  | Ordering.lt ↦ true
  | Ordering.eq ↦ false
  | Ordering.gt ↦ false
]

unfoldable pub same_key : Bytes → Bytes → Bool
same_key a b = elim (compare_bytes a b) [
  | Ordering.lt ↦ false
  | Ordering.eq ↦ true
  | Ordering.gt ↦ false
]

-- A `map[string]struct{}` by its keys
unfoldable pub in_set : Bytes → List Bytes → Bool
in_set pk [] = false
in_set pk (k ∷ ks) = same_key k pk || in_set pk ks

-- `meter`, with the budget as a natural number: 0 never trips.
pub record Meter : Type 0 where
  pub limit : ℕ
  pub used : ℕ

-- `meter.charge`
unfoldable pub charge : Meter → ℕ → Bool × Meter
charge m n =
    if m.limit == 0 then (true, m) else (leb (m.used + n) m.limit, record m { used = m.used + n })

-- The errors that end up in `q.err`: ErrQueryMaterializeLimit, or one of a leaf.
pub data Failure : Type 0 where
  materialize_limit : Failure
  leaf_failed : ℕ → Failure

-- What a leaf without needDedup yields: primary keys with their rows, then nil or an error.
pub record Branch (A : Type 0) : Type 0 where
  pub rows : List (Bytes × A)
  pub failure : Option ℕ

-- A leaf of the hash arm: one without needDedup, or the index entries of one with it, each with its row,
-- or none where the row has vanished or a residual term rejects it; then nil or an error.
pub data Leaf (A : Type 0) : Type 0 where
  plain : Branch A → Leaf A
  expanded : List (Bytes × Option A) → Option ℕ → Leaf A

-- The branches of a union by the arm that `unionPlan` chose: it merges where every branch is a seek, and
-- a seek does not need dedup.
pub data UnionPlan (A : Type 0) : Type 0 where
  merged : List (Branch A) → UnionPlan A
  hashed : List (Leaf A) → UnionPlan A

-- What a drive leaves behind: the tail's state, `q.err`, and the meter.
pub record Done (T : Type 0) : Type 0 where
  pub state : T
  pub error : Option Failure
  pub meter : Meter

unfoldable pub leaf_error : Option ℕ → Option Failure
leaf_error none = none
leaf_error (some e) = some (leaf_failed e)

unfoldable pub is_error : Option Failure → Bool
is_error none = false
is_error (some f) = true

-- The first of two errors.
unfoldable pub or_error : Option Failure → Option Failure → Option Failure
or_error none next = next
or_error (some e) next = some e

-- The state of the callback of `unionDrive`.
pub record Drain (T : Type 0) : Type 0 where
  pub seen : List Bytes
  pub stopped : Bool
  pub out : Done T

-- `haveLast && h.pk == last`
unfoldable pub is_last : Option Bytes → Bytes → Bool
is_last none pk = false
is_last (some last) pk = same_key last pk

-- The state of the build's callback in `intersectDrive`; it sets `q.err` where the budget trips.
pub record Build : Type 0 where
  pub keys : List Bytes
  pub tripped : Bool
  pub meter : Meter

module _ {A : Type 0} where
  -- `min` of `unionMerge`: the head so far, and the one of the next branch.
  unfoldable pub lower : List (Bytes × A) → ℕ → Option (ℕ × Bytes) → Option (ℕ × Bytes)
  lower [] i m = m
  lower (r ∷ rows) i none = some (i, r.0)
  lower (r ∷ rows) i (some (j, pk)) = if is_less r.0 pk then some (i, r.0) else some (j, pk)

  -- its loop over the heads; a branch is `ok` while it has rows
  unfoldable pub min_from : List (Branch A) → ℕ → Option (ℕ × Bytes) → Option (ℕ × Bytes)
  min_from [] i m = m
  min_from (b ∷ bs) i m = min_from bs (suc i) (lower b.rows i m)

  unfoldable pub leaf_failure : Leaf A → Option ℕ
  leaf_failure (plain b) = b.failure
  leaf_failure (expanded es failure) = failure

  abbrev pub no_branch : Branch A
  no_branch = record { rows = []; failure = none }

  -- `q.err` behind a pull: a branch that is drained has left its error there.
  unfoldable pub pulled : Branch A → Option Failure
  pulled b = elim b.rows [ [] ↦ leaf_error b.failure | r ∷ rows ↦ none ]

  -- The pull of every head in front of the loop.
  unfoldable pub first_pulls : List (Branch A) → Option Failure
  first_pulls [] = none
  first_pulls (b ∷ bs) = or_error (pulled b) (first_pulls bs)

module _ {A S : Type 0} where
  -- `leafDrive` of a leaf without needDedup, with a callback: it goes on while the callback says so. Whether the rows are drained, and
  -- the callback's state.
  unfoldable pub leaf_drive : (S → Bytes × A → Bool × S) → List (Bytes × A) → S → Bool × S
  leaf_drive cb [] s = (true, s)
  leaf_drive cb (r ∷ rows) s =
      let c = cb s r in let rest = leaf_drive cb rows c.1 in if c.0 then rest else (false, c.1)

module _ {A : Type 0} where
  -- The callback of the build in `intersectDrive`
  unfoldable pub build_row : Build → Bytes × A → Bool × Build
  build_row s r =
      let c = charge s.meter (length r.0) in
      if not c.0
      then (false, record s { tripped = true; meter = c.1 })
      else (true, record s { keys = r.0 ∷ s.keys; meter = c.1 })

module _ {A T : Type 0} (tail : T → A → Bool × T) where
  -- `tail` at a row that is no duplicate
  unfoldable pub at_row : Option Bytes → Bytes × A → T → Bool × T
  at_row last r t = if is_last last r.0 then (true, t) else tail t r.1

  -- The test of `q.err` behind a pull.
  unfoldable pub after_pull : Meter → T → Option (Done T) → Option Failure → Option (Done T)
  after_pull m t rest none = rest
  after_pull m t rest (some e) = some (record { state = t; error = some e; meter = m })

  -- The branch that the minimum came from, pulled once more.
  unfoldable pub advanced :
      (List (Branch A) → Option Bytes → T → Option (Done T))
      → Meter
      → List (Branch A)
      → ℕ
      → List (Bytes × A)
      → Bytes × A
      → Bool × T
      → Option (Done T)
  advanced next m hs i rows r (false, t) = some (record { state = t; error = none; meter = m })
  advanced next m hs i rows r (true, t) =
      let b : Branch A = record { rows = rows; failure = (get_or hs i no_branch).failure } in
      after_pull m t (next (set hs i b) (some r.0) t) (pulled b)

  unfoldable pub merge_turn :
      (List (Branch A) → Option Bytes → T → Option (Done T))
      → Meter
      → List (Branch A)
      → Option Bytes
      → T
      → Option (ℕ × Bytes)
      → Option (Done T)
  merge_turn next m hs last t none = some (record { state = t; error = none; meter = m })
  merge_turn next m hs last t (some (i, pk)) = elim (get_or hs i no_branch).rows [
    | [] ↦ none
    | r ∷ rows ↦ advanced next m hs i rows r (at_row last r t)
  ]

  -- The loop of `unionMerge`; none where the fuel runs out.
  unfoldable pub merge_loop : ℕ → Meter → List (Branch A) → Option Bytes → T → Option (Done T)
  merge_loop zero m hs last t = none
  merge_loop (suc n) m hs last t =
      merge_turn (λ hs' last' t'. merge_loop n m hs' last' t') m hs last t (min_from hs 0 none)

  -- `unionMerge`
  unfoldable pub union_merge : ℕ → Meter → List (Branch A) → T → Option (Done T)
  union_merge fuel m hs t = after_pull m t (merge_loop fuel m hs none t) (first_pulls hs)

  -- The callback of `unionDrive`
  unfoldable pub union_row : Drain T → Bytes × A → Bool × Drain T
  union_row d r =
      if in_set r.0 d.seen
      then (true, d)
      else let c = charge d.out.meter (length r.0) in
        if not c.0
        then (
          false,
          record d {
            stopped = true;
            out = record (d.out) { error = some materialize_limit; meter = c.1 };
          },
        )
        else let t = tail d.out.state r.1 in
          (
            t.0,
            record {
              seen = r.0 ∷ d.seen;
              stopped = not t.0;
              out = record (d.out) { state = t.1; meter = c.1 };
            },
          )

  -- `row` of `leafDrive` behind the charge, where it calls the callback of `unionDrive`
  unfoldable pub passed_row : Bytes → Option A → Drain T → Bool × Drain T
  passed_row pk none d = (true, d)
  passed_row pk (some a) d = union_row d (pk, a)

  -- `row` of `leafDrive` for a leaf with needDedup: its set, and the shared meter
  unfoldable pub dedup_row : List Bytes → Bytes × Option A → Drain T → Bool × List Bytes × Drain T
  dedup_row seen e d =
      if in_set e.0 seen
      then (true, seen, d)
      else let c = charge d.out.meter (length e.0) in
        if not c.0
        then (
          false,
          seen,
          record d { out = record (d.out) { error = some materialize_limit; meter = c.1 } },
        )
        else let s = passed_row e.0 e.1 (record d { out = record (d.out) { meter = c.1 } }) in
          (s.0, e.0 ∷ seen, s.1)

  -- `leafDrive` of a leaf with needDedup
  unfoldable pub dedup_drive : List (Bytes × Option A) → List Bytes → Drain T → Drain T
  dedup_drive [] seen d = d
  dedup_drive (e ∷ es) seen d =
      let s = dedup_row seen e d in let rest = dedup_drive es s.1 s.2 in if s.0 then rest else s.2

  unfoldable pub drive_leaf : Leaf A → Drain T → Drain T
  drive_leaf (plain b) d = (leaf_drive union_row b.rows d).1
  drive_leaf (expanded es failure) d = dedup_drive es [] d

  -- Its test of `q.err` behind a branch
  unfoldable pub after_branch : Done T → Option Failure → Done T → Done T
  after_branch out none rest = rest
  after_branch out (some f) rest = record out { error = some f }

  -- The loop of `unionDrive` over the branches
  unfoldable pub union_branches : List (Leaf A) → Drain T → Done T
  union_branches [] d = d.out
  union_branches (b ∷ bs) d =
      let e = drive_leaf b (record d { stopped = false }) in
      let rest = union_branches bs e in
      if e.stopped || is_error e.out.error
      then e.out
      else after_branch e.out (leaf_error (leaf_failure b)) rest

  -- `unionDrive`, its two arms
  unfoldable pub union_drive : ℕ → Meter → UnionPlan A → T → Option (Done T)
  union_drive fuel m (merged hs) t = union_merge fuel m hs t
  union_drive fuel m (hashed hs) t = some (
      union_branches hs (record {
        seen = [];
        stopped = false;
        out = record { state = t; error = none; meter = m };
      }))

  -- The callback of the probe in `intersectDrive`
  unfoldable pub probe_row : List Bytes → T → Bytes × A → Bool × T
  probe_row build_set t r = if not (in_set r.0 build_set) then (true, t) else tail t r.1

  -- `intersectDrive`: the probe, where the build ended without an error
  unfoldable pub intersect_drive : Meter → Branch A → Branch A → T → Done T
  unfolding probe_row
  intersect_drive m build probe t =
      let start : Build = record { keys = []; tripped = false; meter = m } in
      let set = (leaf_drive build_row build.rows start).1 in
      if set.tripped
      then record { state = t; error = some materialize_limit; meter = set.meter }
      else let out = leaf_drive (probe_row set.keys) probe.rows t in
        after_branch (record { state = t; error = none; meter = set.meter })
          (leaf_error build.failure)
          (record {
            state = out.1;
            error = if out.0 then leaf_error probe.failure else none;
            meter = set.meter;
          })
