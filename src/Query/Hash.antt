-- ===== src/Query/Hash.antt =====
-- The hash arm of unionDrive (query/combiners.go) gives the tail the first row of each key.
use gmdb.Common.{
  ℕ, suc, ◌+◌, Bool, true, false, Bool-cases, if◌then◌else◌, ◌||◌, Option, none, some, List, [],
  ◌∷◌, ◌++◌, Bytes, length, get_or, ◌≡◌, inl, inr, refl, sym, ◌∙◌, ap, arith,
}
use mathlib.Core.Path.{subst}
use gmdb.Query.{
  no_branch, Leaf, plain, expanded, hashed, leaf_failure, is_error, Done, Meter, Drain, charge,
  in_set, leaf_error, leaf_drive, passed_row, dedup_row, dedup_drive, drive_leaf, after_branch,
  union_branches, union_drive,
}
use gmdb.Query.Firsts.{
  Roomy, charge_fits, Roomy-le, first_of, first_of-seen, first_of-new, key_bytes,
}
use gmdb.Query.Feed.{Drained, onward, row_lem, leaf_drive_lem}
use gmdb.Query.Merge.{fed}

module _ {A : Type 0} where
  -- The entries that have a row.
  unfoldable passing : List (Bytes × Option A) → List (Bytes × A)
  passing [] = []
  passing ((pk, none) ∷ es) = passing es
  passing ((pk, some a) ∷ es) = (pk, a) ∷ passing es

  -- The rows of a leaf: one that needs dedup goes by the first entry of each key.
  unfoldable leaf_rows : Leaf A → List (Bytes × A)
  unfolding passing
  leaf_rows (plain b) = b.rows
  leaf_rows (expanded es failure) = passing (first_of [] es)

  unfoldable pub all_rows : List (Leaf A) → List (Bytes × A)
  unfolding leaf_rows
  all_rows [] = []
  all_rows (b ∷ bs) = leaf_rows b ++ all_rows bs

  -- The bytes that a leaf can charge: those of its keys, twice where it needs dedup.
  unfoldable leaf_bytes : Leaf A → ℕ
  leaf_bytes (plain b) = key_bytes b.rows
  leaf_bytes (expanded es failure) = key_bytes es + key_bytes es

  unfoldable pub all_bytes : List (Leaf A) → ℕ
  unfolding leaf_bytes
  all_bytes [] = 0
  all_bytes (b ∷ bs) = leaf_bytes b + all_bytes bs

  abbrev pub no_leaf : Leaf A
  no_leaf = plain no_branch

module _ {A T : Type 0} (tail : T → A → Bool × T) where
  -- The callback's state once the leaf has charged `n` bytes.
  abbrev charged : Drain T → ℕ → Drain T
  charged d n = record d { out = record (d.out) { meter = (charge d.out.meter n).1 } }

  dedup_drive-seen :
      (e : Bytes × Option A) (es : List (Bytes × Option A)) (seen : List Bytes) (d : Drain T)
      → in_set e.0 seen ≡ true
      → dedup_drive tail (e ∷ es) seen d ≡ dedup_drive tail es seen d
  unfolding dedup_drive dedup_row
  dedup_drive-seen e es seen d dup = rw dup refl

  dedup_drive-new :
      (e : Bytes × Option A) (es : List (Bytes × Option A)) (seen : List Bytes) (d : Drain T)
      → in_set e.0 seen ≡ false
      → (charge d.out.meter (length e.0)).0 ≡ true
      → dedup_drive tail (e ∷ es) seen d
        ≡ onward tail
            (passed_row tail e.0 e.1 (charged d (length e.0)))
            (λ t. dedup_drive tail es (e.0 ∷ seen) t)
  unfolding dedup_drive dedup_row
  dedup_drive-new e es seen d new fits = rw (new, fits) refl

  -- An entry that the leaf has charged, with what follows it.
  passed_row_lem :
      (pk : Bytes) (row : Option A) (es : List (Bytes × Option A)) (more : List (Bytes × A))
      (k n : ℕ) (d : Drain T) (rest : Drain T → Drain T)
      → d.stopped ≡ false
      → d.out.error ≡ none
      → Roomy d.out.meter (length pk + k)
      → ((t : Drain T)
          → t.stopped ≡ false
          → t.out.error ≡ none
          → Roomy t.out.meter k
          → Drained tail t (passing es) more n (rest t))
      → Drained tail d
          (passing ((pk, row) ∷ es))
          more
          n
          (onward tail (passed_row tail pk row d) rest)
  unfolding passed_row passing
  passed_row_lem pk none es more k n d rest live fine room go_on =
      go_on d live fine (Roomy-le d.out.meter (length pk) k room)
  passed_row_lem pk (some a) es more k n d rest live fine room go_on =
      row_lem tail (pk, a) (passing es) more k n d rest live fine room go_on

  dedup_drive_lem :
      (es : List (Bytes × Option A)) (seen : List Bytes) (more : List (Bytes × A)) (n : ℕ)
      (d : Drain T)
      → d.stopped ≡ false
      → d.out.error ≡ none
      → Roomy d.out.meter (key_bytes es + key_bytes es + n)
      → Drained tail d (passing (first_of seen es)) more n (dedup_drive tail es seen d)
  unfolding key_bytes
  dedup_drive_lem [] seen more n d live fine room =
      unfold dedup_drive passing first_of in
      (fine, inr (live, refl, subst (λ (k : ℕ). Roomy d.out.meter k) (omega arith) room))
  dedup_drive_lem ((pk, row) ∷ es) seen more n d live fine room =
      let k = key_bytes es + key_bytes es + n in
      let twice : Roomy d.out.meter (length pk + (length pk + k)) =
        subst (λ (x : ℕ). Roomy d.out.meter x) (omega arith) room in
      elim (Bool-cases (in_set pk seen)) [
        | inl dup ↦
            let left =
              Roomy-le d.out.meter (length pk) k
                (Roomy-le d.out.meter (length pk) (length pk + k) twice) in
            rw (first_of-seen seen (pk, row) es dup, dedup_drive-seen (pk, row) es seen d dup)
              (dedup_drive_lem es seen more n d live fine left)
        | inr new ↦
            let (fits, left) = charge_fits d.out.meter (length pk) (length pk + k) twice in
            rw (first_of-new seen (pk, row) es new, dedup_drive-new (pk, row) es seen d new fits)
              (passed_row_lem pk row (first_of (pk ∷ seen) es) more k n (charged d (length pk))
                (λ t. dedup_drive tail es (pk ∷ seen) t) live fine left
                (λ t live' fine' room'. dedup_drive_lem es (pk ∷ seen) more n t live' fine' room'))
      ]

  drive_leaf_lem :
      (b : Leaf A) (more : List (Bytes × A)) (n : ℕ) (d : Drain T)
      → d.stopped ≡ false
      → d.out.error ≡ none
      → Roomy d.out.meter (leaf_bytes b + n)
      → Drained tail d (leaf_rows b) more n (drive_leaf tail b d)
  unfolding drive_leaf leaf_rows leaf_bytes
  drive_leaf_lem (plain b) more n d live fine room =
      leaf_drive_lem tail b.rows more n d live fine room
  drive_leaf_lem (expanded es failure) more n d live fine room =
      dedup_drive_lem es [] more n d live fine room

  union_branches_lem :
      (bs : List (Leaf A)) (d : Drain T)
      → d.out.error ≡ none
      → ((j : ℕ) → leaf_failure (get_or bs j no_leaf) ≡ none)
      → Roomy d.out.meter (all_bytes bs)
      → ((union_branches tail bs d).state ≡ fed tail (first_of d.seen (all_rows bs)) d.out.state)
        × ((union_branches tail bs d).error ≡ none)
  unfolding union_branches all_rows all_bytes fed first_of leaf_drive after_branch leaf_error
      is_error
  union_branches_lem [] d fine sound room = (refl, fine)
  union_branches_lem (b ∷ bs) d fine sound room =
      let start = record d { stopped = false } in
      let e = drive_leaf tail b start in
      let (fine', out) = drive_leaf_lem b (all_rows bs) (all_bytes bs) start refl fine room in
      elim out [
        | inl (stop, state) ↦ rw stop (state, fine')
        | inr (live, state, left) ↦
            let goes : (e.stopped || is_error e.out.error) ≡ false = rw (live, fine') refl in
            let chosen : union_branches tail (b ∷ bs) d ≡ union_branches tail bs e =
              ap
                (λ (s : Bool).
                  if s
                  then e.out
                  else after_branch tail e.out (leaf_error (leaf_failure b))
                      (union_branches tail bs e))
                goes
              ∙ ap
                  (λ (o : Option ℕ).
                    after_branch tail e.out (leaf_error o) (union_branches tail bs e))
                  (sound 0) in
            let (state', fine'') = union_branches_lem bs e fine' (λ j. sound (suc j)) left in
            (
              ap (λ (x : Done T). x.state) chosen ∙ state' ∙ sym state,
              ap (λ (x : Done T). x.error) chosen ∙ fine'',
            )
      ]

  -- On leaves that do not fail, and with a budget for the bytes of the keys of their entries, twice for a
  -- leaf that needs dedup, the hash arm of unionDrive ends without an error and has fed the tail, until it
  -- stopped, with the first row of each key in plan order, a leaf that needs dedup going by the first
  -- entry of each key.
  pub union_drive-first_of :
      (fuel : ℕ) (m : Meter) (hs : List (Leaf A)) (t : T)
      → Roomy m (all_bytes hs)
      → ((j : ℕ) → leaf_failure (get_or hs j no_leaf) ≡ none)
      → (out : Done T) × (union_drive tail fuel m (hashed hs) t ≡ some out)
        × (out.state ≡ fed tail (first_of [] (all_rows hs)) t)
        × (out.error ≡ none)
  unfolding union_drive
  union_drive-first_of fuel m hs t room sound =
      let start : Drain T = record {
        seen = [];
        stopped = false;
        out = record { state = t; error = none; meter = m };
      } in
      let (state, fine) = union_branches_lem hs start refl sound room in
      (union_branches tail hs start, refl, state, fine)
