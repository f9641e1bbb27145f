-- ===== src/Indexing/Key/Order.antt =====
-- The byte order of encoded keys is the order of the column tuples (internal/indexing/key.go): the
-- terminator 00 00 sorts below the escape pair 00 ff and below every other byte.
use Prim.Native.Nat.{compare, Ordering}
use gmdb.Common.{ℕ, zero, suc, List, [], ◌∷◌, ◌++◌, Bytes, ◌≡◌, refl, arith}
use gmdb.Common.Order.{then_by, compare_bytes, compare_tuples}
use gmdb.Indexing.Key.{escape_bytes, encode_key}
use gmdb.Indexing.Key.Steps.{escape_nil, escape_zero, escape_plain, encode_cons}

then_by_assoc : (a b c : Ordering) → then_by (then_by a b) c ≡ then_by a (then_by b c)
then_by_assoc Ordering.lt b c = refl
then_by_assoc Ordering.eq b c = refl
then_by_assoc Ordering.gt b c = refl

compare_self : (b : ℕ) → compare b b ≡ Ordering.eq
compare_self b = ground arith

compare_cons :
    (x y : ℕ) (xs ys : Bytes)
    → compare_bytes (x ∷ xs) (y ∷ ys) ≡ then_by (compare x y) (compare_bytes xs ys)
unfolding compare_bytes
compare_cons x y xs ys = refl

compare_nil_encode :
    (c : Bytes) (cols : List Bytes) → compare_bytes [] (encode_key (c ∷ cols)) ≡ Ordering.lt
unfolding compare_bytes
compare_nil_encode [] cols = rw (encode_cons, escape_nil)
compare_nil_encode (zero ∷ c) cols = rw (encode_cons, escape_zero)
compare_nil_encode (suc x ∷ c) cols = rw (encode_cons, escape_plain)

compare_encode_nil :
    (c : Bytes) (cols : List Bytes) → compare_bytes (encode_key (c ∷ cols)) [] ≡ Ordering.gt
unfolding compare_bytes
compare_encode_nil [] cols = rw (encode_cons, escape_nil)
compare_encode_nil (zero ∷ c) cols = rw (encode_cons, escape_zero)
compare_encode_nil (suc x ∷ c) cols = rw (encode_cons, escape_plain)

-- Two encodings compare by their first columns, and then by what follows.
compare_column :
    (a b ra rb : Bytes)
    → compare_bytes (escape_bytes a ++ (0 ∷ 0 ∷ ra)) (escape_bytes b ++ (0 ∷ 0 ∷ rb))
      ≡ then_by (compare_bytes a b) (compare_bytes ra rb)
compare_column [] [] ra rb = rw escape_nil (unfold compare_bytes in refl)
compare_column [] (zero ∷ b) ra rb = rw (escape_nil, escape_zero) (unfold compare_bytes in refl)
compare_column [] (suc y ∷ b) ra rb =
    rw (escape_nil, escape_plain) (unfold compare_bytes in ground arith)
compare_column (zero ∷ a) [] ra rb = rw (escape_nil, escape_zero) (unfold compare_bytes in refl)
compare_column (suc x ∷ a) [] ra rb =
    rw (escape_nil, escape_plain) (unfold compare_bytes in ground arith)
compare_column (zero ∷ a) (zero ∷ b) ra rb =
    simp (escape_zero, compare_cons, compare_column a b ra rb)
compare_column (zero ∷ a) (suc y ∷ b) ra rb =
    rw (escape_zero, escape_plain) (unfold compare_bytes in ground arith)
compare_column (suc x ∷ a) (zero ∷ b) ra rb =
    rw (escape_zero, escape_plain) (unfold compare_bytes in ground arith)
compare_column (suc x ∷ a) (suc y ∷ b) ra rb =
    simp (escape_plain, compare_cons, compare_column a b ra rb, then_by_assoc)

-- bytes.Compare on two encoded keys answers what comparing the tuples column by column does, for
-- tuples of any lengths.
pub compare-encode_key :
    (us vs : List Bytes) → compare_bytes (encode_key us) (encode_key vs) ≡ compare_tuples us vs
compare-encode_key [] [] = unfold compare_bytes compare_tuples encode_key in refl
compare-encode_key [] (v ∷ vs) = unfold compare_tuples encode_key in compare_nil_encode v vs
compare-encode_key (u ∷ us) [] = unfold compare_tuples encode_key in compare_encode_nil u us
compare-encode_key (u ∷ us) (v ∷ vs) =
    rw (encode_cons u us, encode_cons v vs, compare_column u v, compare-encode_key us vs)
      (unfold compare_tuples in refl)
