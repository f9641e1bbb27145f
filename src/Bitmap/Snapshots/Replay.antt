-- ===== src/Bitmap/Snapshots/Replay.antt =====
-- Replaying the undo log against what was logged.
use gmdb.Common.{
  ℕ, ◌≤◌, List, [], ◌∷◌, ◌++◌, Bool, true, false, Bytes, some, length, ◌≡◌, refl, ap, arith,
}
use gmdb.Bitmap.{
  Flip, Snapshot, undo_flip, test_bit, set_bit, clear_bit, mark_summary,
  unmark_summary_if_word_zero,
}
use gmdb.Bitmap.Detail.{clear_bit-set_bit, set_bit-clear_bit}
use gmdb.Bitmap.Summary.{InRange, SummaryExact, unmark-mark_summary, mark-unmark_summary}
use gmdb.Bitmap.Snapshots.{replay, index_of_snapshot, delete_at}
use gmdb.Bitmap.Snapshots.Scopes.{fresh_ref}

pub replay-append :
    (image : Bytes × List ℕ) (xs ys : List Flip)
    → replay image (xs ++ ys) ≡ replay (replay image ys) xs
unfolding replay
replay-append image [] ys = refl
replay-append image (e ∷ xs) ys =
    ap (λ (t : Bytes × List ℕ). undo_flip t e) (replay-append image xs ys)

abbrev pub flip_of : ℕ → Bool → Flip
flip_of p was_set = record { page = p; was_set = was_set }

pub undo_flip_up :
    (detail : Bytes) (summary : List ℕ) (p : ℕ)
    → InRange detail summary p
    → test_bit detail p ≡ false
    → SummaryExact detail summary
    → undo_flip (set_bit detail p, mark_summary summary p) (flip_of p false) ≡ (detail, summary)
unfolding undo_flip
undo_flip_up detail summary p r t exact =
    rw (clear_bit-set_bit detail p r.0 t, unmark-mark_summary detail summary p r exact)

pub undo_flip_down :
    (detail : Bytes) (summary : List ℕ) (p : ℕ)
    → InRange detail summary p
    → test_bit detail p ≡ true
    → SummaryExact detail summary
    → undo_flip
        (clear_bit detail p, unmark_summary_if_word_zero (clear_bit detail p) summary p)
        (flip_of p true)
      ≡ (detail, summary)
unfolding undo_flip
undo_flip_down detail summary p r t exact =
    rw (set_bit-clear_bit detail p r.0 t, mark-unmark_summary detail summary p r t exact)

index_above :
    (open_now : List Snapshot) (s : Snapshot)
    → fresh_ref open_now ≤ s.ref
    → index_of_snapshot (open_now ++ s ∷ []) s.ref ≡ some (length open_now)
unfolding index_of_snapshot fresh_ref
index_above [] s h = ground arith
index_above (o ∷ open_now) s h = ground (arith, index_above open_now s)

-- The snapshot opened last is found behind the others.
pub index_of_fresh :
    (open_now : List Snapshot) (s : Snapshot)
    → s.ref ≡ fresh_ref open_now
    → index_of_snapshot (open_now ++ s ∷ []) s.ref ≡ some (length open_now)
index_of_fresh open_now s h = index_above open_now s (omega arith)

pub delete_last :
    (open_now : List Snapshot) (s : Snapshot)
    → delete_at (length open_now) (open_now ++ s ∷ []) ≡ open_now
unfolding delete_at
delete_last [] s = refl
delete_last (o ∷ open_now) s = ap (λ (t : List Snapshot). o ∷ t) (delete_last open_now s)
