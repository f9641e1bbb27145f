-- ===== src/Bitmap/Snapshots/Resolve.antt =====
-- `Restore` and `Discard` of the snapshot opened last, on a bitmap whose log leads back to it
-- (internal/bitmap/bitmap.go).
use gmdb.Common.{ℕ, List, some, length, take, drop, take-append_left, drop-append_left, ◌≡◌, refl}
use gmdb.Bitmap.{Snapshot, Bitmap}
use gmdb.Bitmap.Invariant.{IsValid}
use gmdb.Bitmap.Snapshots.{
  open_snapshot, index_of_snapshot, replay, restore, restore_at, delete_at, discard, discard_at,
}
use gmdb.Bitmap.Snapshots.Replay.{index_of_fresh, delete_last}
use gmdb.Bitmap.Snapshots.Extends.{Extends, HasOpen}
use gmdb.Bitmap.Snapshots.Scopes.{fresh_ref}

-- `Restore` at the position of its snapshot, where the log behind that position leads back.
restore_back :
    (b c : Bitmap) (ref : ℕ)
    → Extends (open_snapshot ref b).1 c
    → restore_at c (open_snapshot ref b).0 (some (length b.open_snapshots)) ≡ some b
unfolding restore_at open_snapshot
restore_back b c ref e =
    let tail : drop (length b.undo_log) c.undo_log ≡ e.log =
      rw e.logged (drop-append_left b.undo_log e.log) in
    let undone : replay (c.detail, c.summary) (drop (length b.undo_log) c.undo_log)
        ≡ (b.detail, b.summary) =
      rw tail e.undone in
    let log : take (length b.undo_log) c.undo_log ≡ b.undo_log =
      rw e.logged (take-append_left b.undo_log e.log) in
    let left : take (length b.open_snapshots) c.open_snapshots ≡ b.open_snapshots =
      rw e.open_snapshots (take-append_left b.open_snapshots _) in
    λ i. some (record {
      detail = (undone i).0;
      summary = (undone i).1;
      page_size = e.page_size i;
      bitmap_pages = e.bitmap_pages i;
      first_data_page = e.first_data_page i;
      total_pages = e.total_pages i;
      num_free = b.num_free;
      hint = b.hint;
      dirty = b.dirty;
      undo_log = log i;
      open_snapshots = left i;
    })

pub restore-Extends :
    (b c : Bitmap) (ref : ℕ)
    → ref ≡ fresh_ref b.open_snapshots
    → Extends (open_snapshot ref b).1 c
    → restore c (open_snapshot ref b).0 ≡ some b
unfolding restore
restore-Extends b c ref h e =
    let found : index_of_snapshot c.open_snapshots (open_snapshot ref b).0.ref
        ≡ some (length b.open_snapshots) =
      rw e.open_snapshots (unfold open_snapshot in index_of_fresh b.open_snapshots _ h) in
    rw found (restore_back b c ref e)

-- The bitmap that `Discard` leaves.
pub released : Bitmap → List Snapshot → Bitmap
released c open_left = record c { open_snapshots = open_left }

pub discard-Extends :
    (b c : Bitmap) (ref : ℕ)
    → ref ≡ fresh_ref b.open_snapshots
    → HasOpen b
    → Extends (open_snapshot ref b).1 c
    → discard c (open_snapshot ref b).0 ≡ some (released c b.open_snapshots)
unfolding discard discard_at released
discard-Extends b c ref h o e =
    let found : index_of_snapshot c.open_snapshots (open_snapshot ref b).0.ref
        ≡ some (length b.open_snapshots) =
      rw e.open_snapshots (unfold open_snapshot in index_of_fresh b.open_snapshots _ h) in
    let left : delete_at (length b.open_snapshots) c.open_snapshots ≡ b.open_snapshots =
      rw e.open_snapshots (unfold open_snapshot in delete_last b.open_snapshots _) in
    rw found (rw (left, o))

pub released-Extends :
    (b c : Bitmap) (ref : ℕ)
    → Extends (open_snapshot ref b).1 c
    → Extends b (released c b.open_snapshots)
unfolding released open_snapshot
released-Extends b c ref e = record {
  page_size = e.page_size;
  bitmap_pages = e.bitmap_pages;
  first_data_page = e.first_data_page;
  total_pages = e.total_pages;
  open_snapshots = refl;
  log = e.log;
  logged = e.logged;
  undone = e.undone;
}

pub released-IsValid : (c : Bitmap) (left : List Snapshot) → IsValid c → IsValid (released c left)
unfolding released
released-IsValid c left v = record {
  capacity = v.capacity;
  summary_size = v.summary_size;
  exact = v.exact;
}
