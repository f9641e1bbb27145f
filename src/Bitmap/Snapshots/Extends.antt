-- ===== src/Bitmap/Snapshots/Extends.antt =====
-- A bitmap whose undo log leads back to an earlier one (internal/bitmap/bitmap.go, recordFlip).
use gmdb.Common.{
  ℕ, List, [], ◌∷◌, ◌++◌, Bool, true, false, ◌==◌, length, append_assoc, append-nil, ◌≡◌, refl, sym,
  ◌∙◌,
}
use gmdb.Bitmap.{Flip, Bitmap, test_bit, record_flip, allocatable, flip_up, flip_down}
use gmdb.Bitmap.Invariant.{IsValid, IsValid-InRange}
use gmdb.Bitmap.Snapshots.{replay}
use gmdb.Bitmap.Snapshots.Replay.{replay-append, flip_of, undo_flip_up, undo_flip_down}

-- `c` comes from `b` by flips that the log has, with the same snapshots open.
pub record Extends (b c : Bitmap) : Type 0 where
  pub page_size : c.page_size ≡ b.page_size
  pub bitmap_pages : c.bitmap_pages ≡ b.bitmap_pages
  pub first_data_page : c.first_data_page ≡ b.first_data_page
  pub total_pages : c.total_pages ≡ b.total_pages
  pub open_snapshots : c.open_snapshots ≡ b.open_snapshots
  pub log : List Flip
  pub logged : c.undo_log ≡ b.undo_log ++ log
  pub undone : replay (c.detail, c.summary) log ≡ (b.detail, b.summary)

pub Extends-refl : (b : Bitmap) → Extends b b
Extends-refl b = record {
  page_size = refl;
  bitmap_pages = refl;
  first_data_page = refl;
  total_pages = refl;
  open_snapshots = refl;
  log = [];
  logged = sym (append-nil b.undo_log);
  undone = unfold replay in refl;
}

pub Extends-trans : (b c d : Bitmap) → Extends b c → Extends c d → Extends b d
Extends-trans b c d e f = record {
  page_size = f.page_size ∙ e.page_size;
  bitmap_pages = f.bitmap_pages ∙ e.bitmap_pages;
  first_data_page = f.first_data_page ∙ e.first_data_page;
  total_pages = f.total_pages ∙ e.total_pages;
  open_snapshots = f.open_snapshots ∙ e.open_snapshots;
  log = e.log ++ f.log;
  logged = f.logged ∙ rw e.logged (append_assoc b.undo_log e.log f.log);
  undone = replay-append (d.detail, d.summary) e.log f.log ∙ rw f.undone e.undone;
}

-- Some snapshot is open, so flips are logged.
abbrev pub HasOpen : Bitmap → Type 0
HasOpen b = (length b.open_snapshots == 0) ≡ false

record_flip-HasOpen :
    (b : Bitmap) (p : ℕ) (was_set : Bool)
    → HasOpen b
    → record_flip b p was_set ≡ b.undo_log ++ flip_of p was_set ∷ []
unfolding record_flip
record_flip-HasOpen b p was_set h = rw h

pub flip_up-Extends :
    (b : Bitmap) (p : ℕ)
    → IsValid b
    → HasOpen b
    → allocatable b p ≡ true
    → test_bit b.detail p ≡ false
    → Extends b (flip_up b p)
unfolding flip_up
flip_up-Extends b p v h a t = record {
  page_size = refl;
  bitmap_pages = refl;
  first_data_page = refl;
  total_pages = refl;
  open_snapshots = refl;
  log = flip_of p false ∷ [];
  logged = record_flip-HasOpen b p false h;
  undone = unfold replay in undo_flip_up b.detail b.summary p (IsValid-InRange b p v a) t v.exact;
}

pub flip_down-Extends :
    (b : Bitmap) (p : ℕ)
    → IsValid b
    → HasOpen b
    → allocatable b p ≡ true
    → test_bit b.detail p ≡ true
    → Extends b (flip_down b p)
unfolding flip_down
flip_down-Extends b p v h a t = record {
  page_size = refl;
  bitmap_pages = refl;
  first_data_page = refl;
  total_pages = refl;
  open_snapshots = refl;
  log = flip_of p true ∷ [];
  logged = record_flip-HasOpen b p true h;
  undone = unfold replay in undo_flip_down b.detail b.summary p (IsValid-InRange b p v a) t v.exact;
}
