-- ===== src/Bitmap/Snapshots.antt =====
-- internal/bitmap/bitmap.go: snapshots and the undo log.
pub mod Scopes
mod Replay
mod Extends
mod Resolve
pub mod Rollback
use gmdb.Common.{
  ℕ, zero, suc, ◌+◌, List, [], ◌∷◌, ◌++◌, Bool, true, false, Bytes, Option, none, some, ◌==◌,
  if◌then◌else◌, length, take, drop,
}
use gmdb.Bitmap.{Flip, Snapshot, Bitmap, undo_flip}
use mathlib.Core.Option

-- `Snapshot()`, at the address that the allocator returned: the marker and the bitmap.
pub open_snapshot : ℕ → Bitmap → Snapshot × Bitmap
open_snapshot ref b =
    let s : Snapshot = record {
      ref = ref;
      log_pos = length b.undo_log;
      hint = b.hint;
      num_free = b.num_free;
      dirty = b.dirty;
    } in
    (s, record b { open_snapshots = b.open_snapshots ++ s ∷ [] })

-- `indexOfSnapshot`; `none` is -1.
pub index_of_snapshot : List Snapshot → ℕ → Option ℕ
index_of_snapshot [] ref = none
index_of_snapshot (s ∷ rest) ref =
    if s.ref == ref then some 0 else Option.map suc (index_of_snapshot rest ref)

-- The replay loop of `Restore`: the log from its end down to `log_pos`.
pub replay : Bytes × List ℕ → List Flip → Bytes × List ℕ
replay image [] = image
replay image (e ∷ log) = undo_flip (replay image log) e

-- `Restore`; `none` is the panic on a snapshot that is not open.
pub restore_at : Bitmap → Snapshot → Option ℕ → Option Bitmap
unfolding replay
restore_at b s none = none
restore_at b s (some idx) =
    let (detail, summary) = replay (b.detail, b.summary) (drop s.log_pos b.undo_log) in
    some (record b {
      detail = detail;
      summary = summary;
      undo_log = take s.log_pos b.undo_log;
      hint = s.hint;
      num_free = s.num_free;
      dirty = s.dirty;
      open_snapshots = take idx b.open_snapshots;
    })

pub restore : Bitmap → Snapshot → Option Bitmap
unfolding restore_at index_of_snapshot
restore b s = restore_at b s (index_of_snapshot b.open_snapshots s.ref)

-- `slices.Delete(open, idx, idx+1)`
pub delete_at : ℕ → List Snapshot → List Snapshot
delete_at idx [] = []
delete_at zero (s ∷ rest) = rest
delete_at (suc idx) (s ∷ rest) = s ∷ delete_at idx rest

-- `Discard`; `none` is the panic on a snapshot that is not open.
pub discard_at : Bitmap → Option ℕ → Option Bitmap
unfolding delete_at
discard_at b none = none
discard_at b (some idx) =
    let open_left = delete_at idx b.open_snapshots in
    some (record b {
      open_snapshots = open_left;
      undo_log = if length open_left == 0 then [] else b.undo_log;
    })

pub discard : Bitmap → Snapshot → Option Bitmap
unfolding discard_at index_of_snapshot
discard b s = discard_at b (index_of_snapshot b.open_snapshots s.ref)
