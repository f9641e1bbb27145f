-- ===== src/Common/Integers.antt =====
-- Integers over the native numbers, under the library's names: `negsuc n` is -1 - n.
use Prim.Native.Nat.{ℕ, compare, Ordering}

pub data ℤ : Type 0 where
  pos negsuc : ℕ → ℤ

-- The order of the integers.
unfoldable pub compare_ℤ : ℤ → ℤ → Ordering
compare_ℤ (pos a) (pos b) = compare a b
compare_ℤ (pos a) (negsuc b) = Ordering.gt
compare_ℤ (negsuc a) (pos b) = Ordering.lt
compare_ℤ (negsuc a) (negsuc b) = compare b a
