-- ===== src/Common/Order.antt =====
-- `bytes.Compare`: the lexicographic order of byte strings, and its lift to tuples of them.
use Prim.Native.Nat.{compare, Ordering}
use mathlib.Core.List.{List, [], ◌∷◌}
use gmdb.Common.Lists.{Bytes}

-- The outcome of a first comparison, and the second one where the first is a tie.
abbrev pub then_by : Ordering → Ordering → Ordering
then_by Ordering.lt o = Ordering.lt
then_by Ordering.eq o = o
then_by Ordering.gt o = Ordering.gt

unfoldable pub compare_bytes : Bytes → Bytes → Ordering
compare_bytes [] [] = Ordering.eq
compare_bytes [] (y ∷ ys) = Ordering.lt
compare_bytes (x ∷ xs) [] = Ordering.gt
compare_bytes (x ∷ xs) (y ∷ ys) = then_by (compare x y) (compare_bytes xs ys)

-- Column by column, and a proper prefix of a tuple comes first.
unfoldable pub compare_tuples : List Bytes → List Bytes → Ordering
compare_tuples [] [] = Ordering.eq
compare_tuples [] (y ∷ ys) = Ordering.lt
compare_tuples (x ∷ xs) [] = Ordering.gt
compare_tuples (x ∷ xs) (y ∷ ys) = then_by (compare_bytes x y) (compare_tuples xs ys)
