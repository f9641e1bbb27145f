-- ===== src/Page/Subpage/Membership.antt =====
-- Insert, Delete and Search as operations on a set of values (internal/page/subpage.go).
use gmdb.Common.{
  ℕ, ◌^◌, ◌<◌, List, Bool, true, false, not, Bytes, Result, ok, ◌>>=◌, length, ◌≡◌, ◌≢◌, ap, ◌∙◌,
  sym,
}
use gmdb.Page.Subpage.{Fault, SubpageReader, new_subpage_reader}
use gmdb.Page.Subpage.Edit.{search, insert, delete}
use gmdb.Page.Subpage.Image.{Sized, body, image, reader, new_subpage_reader-image}
use gmdb.Page.Subpage.Sorted.{put_sorted, drop_sorted}
use gmdb.Page.Subpage.Sets.{
  contains, contains-put_sorted_self, contains-put_sorted_other, contains-drop_sorted_self,
  contains-drop_sorted_other,
}
use gmdb.Page.Subpage.Search.{search-place}
use gmdb.Page.Subpage.Refines.{IsSubpage, insert-put_sorted, delete-drop_sorted}

-- Whether Search finds a value.
unfoldable pub finds : SubpageReader → Bytes → Result Fault Bool
finds r t = search r t >>= λ p. ok p.1

finds-contains :
    (fixed : ℕ) (vs : List Bytes) (t : Bytes)
    → IsSubpage fixed vs
    → finds (reader fixed vs) t ≡ ok (contains t vs)
unfolding finds contains
finds-contains fixed vs t s = rw (search-place fixed vs t s.sized s.sorted)

-- Insert of a value of the right size into the subpage of a sorted set, where the header's fields can count
-- the result, succeeds and says whether the value was missing. In the new subpage Search finds the value,
-- and every other value exactly if it was there before.
pub insert_membership :
    (fixed : ℕ) (vs : List Bytes) (t : Bytes)
    → IsSubpage fixed vs
    → Sized fixed t
    → length (put_sorted t vs) < 2 ^ 16
    → length (body fixed (put_sorted t vs)) < 2 ^ 16
    → (out : Bytes) × (r : SubpageReader) × (insert (reader fixed vs) t
        ≡ ok (out, not (contains t vs)))
      × (new_subpage_reader out fixed ≡ ok r)
      × (finds r t ≡ ok true)
      × ((u : Bytes) → u ≢ t → finds r u ≡ finds (reader fixed vs) u)
unfolding contains
insert_membership fixed vs t s h few small =
    let (inserted, now) = insert-put_sorted fixed vs t s h few small in
    (
      image fixed (put_sorted t vs),
      reader fixed (put_sorted t vs),
      inserted,
      new_subpage_reader-image fixed (put_sorted t vs) few small,
      finds-contains fixed (put_sorted t vs) t now ∙ ap ok (contains-put_sorted_self t vs),
      λ u ne.
          finds-contains fixed (put_sorted t vs) u now
          ∙ ap ok (contains-put_sorted_other u t vs ne)
          ∙ sym (finds-contains fixed vs u s),
    )

-- Delete of a value of the right size from the subpage of a sorted set succeeds and says whether the value
-- was there. In the new subpage Search does not find the value, and every other value exactly if it was
-- there before.
pub delete_membership :
    (fixed : ℕ) (vs : List Bytes) (t : Bytes)
    → IsSubpage fixed vs
    → Sized fixed t
    → (out : Bytes) × (r : SubpageReader) × (delete (reader fixed vs) t ≡ ok (out, contains t vs))
      × (new_subpage_reader out fixed ≡ ok r)
      × (finds r t ≡ ok false)
      × ((u : Bytes) → u ≢ t → finds r u ≡ finds (reader fixed vs) u)
unfolding contains
delete_membership fixed vs t s h =
    let (deleted, now) = delete-drop_sorted fixed vs t s h in
    (
      image fixed (drop_sorted t vs),
      reader fixed (drop_sorted t vs),
      deleted,
      new_subpage_reader-image fixed (drop_sorted t vs) now.few now.small,
      finds-contains fixed (drop_sorted t vs) t now
          ∙ ap ok (contains-drop_sorted_self t vs s.sorted),
      λ u ne.
          finds-contains fixed (drop_sorted t vs) u now
          ∙ ap ok (contains-drop_sorted_other u t vs s.sorted ne)
          ∙ sym (finds-contains fixed vs u s),
    )
