-- ===== src/Tests/Subpage.antt =====
-- internal/page/subpage.go at concrete sets of values.
use gmdb.Common.{
  ℕ, ◌+◌, ◌++◌, ◌∷◌, [], ◌^◌, ◌<◌, ◌≤◌, List, true, false, not, Bytes, AllBytes, ok, err, ◌≡◌, ◌≢◌,
  refl, arith, length, length-append, length-replicate, replicate,
}
use gmdb.Common.Order.{compare_bytes}
use gmdb.Common.Buffer.{le_bytes, from_le, get_uint16}
use gmdb.Page.Subpage.{
  SubpageReader, corrupted, new_subpage_reader, validate, all_values, size_bytes, validate_entries,
  validate_variable, uint16_of, slice_of, behind, in_order,
}
use gmdb.Page.Subpage.Edit.{insert, delete, encode_subpage}
use gmdb.Page.Subpage.Image.{image, body, entry, reader}
use gmdb.Page.Subpage.Sorted.{put_sorted}
use gmdb.Page.Subpage.Sets.{contains}
use gmdb.Page.Subpage.Refines.{IsSubpage, insert_too_large}
use gmdb.Page.Subpage.Membership.{finds, insert_membership, delete_membership}
use gmdb.Page.Subpage.Accepted.{encode_subpage_round_trip}
use gmdb.Page.Subpage.Sound.{validate_sound}

abbrev pairs : List Bytes
pairs = (1 ∷ 2 ∷ []) ∷ (3 ∷ 4 ∷ []) ∷ (5 ∷ 6 ∷ []) ∷ []

pairs-IsSubpage : IsSubpage 2 pairs
unfolding compare_bytes body entry
pairs-IsSubpage = record {
  sized = (refl, (refl, (refl, tt)));
  sorted = ((refl, (refl, tt)), ((refl, tt), (tt, tt)));
  few = omega arith;
  small = omega arith;
}

words : List Bytes
words = (1 ∷ []) ∷ (1 ∷ 2 ∷ 3 ∷ []) ∷ []

words-IsSubpage : IsSubpage 0 words
unfolding words compare_bytes body entry le_bytes
words-IsSubpage = record {
  sized = (omega arith, (omega arith, tt));
  sorted = ((refl, tt), (tt, tt));
  few = omega arith;
  small = omega arith;
}

new_word_few : length (put_sorted (1 ∷ 2 ∷ []) words) < 2 ^ 16
unfolding words put_sorted compare_bytes
new_word_few = omega arith

new_word_small : length (body 0 (put_sorted (1 ∷ 2 ∷ []) words)) < 2 ^ 16
unfolding words put_sorted compare_bytes body entry le_bytes
new_word_small = omega arith

insert_membership_example :
    (out : Bytes) × (r : SubpageReader) × (insert (reader 0 words) (1 ∷ 2 ∷ [])
      ≡ ok (out, not (contains (1 ∷ 2 ∷ []) words)))
    × (new_subpage_reader out 0 ≡ ok r)
    × (finds r (1 ∷ 2 ∷ []) ≡ ok true)
    × ((u : Bytes) → u ≢ 1 ∷ 2 ∷ [] → finds r u ≡ finds (reader 0 words) u)
insert_membership_example =
    insert_membership 0 words (1 ∷ 2 ∷ []) words-IsSubpage (omega arith) new_word_few new_word_small

delete_membership_example :
    (out : Bytes) × (r : SubpageReader) × (delete (reader 2 pairs) (3 ∷ 4 ∷ [])
      ≡ ok (out, contains (3 ∷ 4 ∷ []) pairs))
    × (new_subpage_reader out 2 ≡ ok r)
    × (finds r (3 ∷ 4 ∷ []) ≡ ok false)
    × ((u : Bytes) → u ≢ 3 ∷ 4 ∷ [] → finds r u ≡ finds (reader 2 pairs) u)
delete_membership_example = delete_membership 2 pairs (3 ∷ 4 ∷ []) pairs-IsSubpage refl

encode_subpage_round_trip_example :
    (out : Bytes) × (r : SubpageReader) × (encode_subpage words 0 ≡ ok out)
    × (new_subpage_reader out 0 ≡ ok r)
    × (validate r ≡ ok tt)
    × (all_values r ≡ ok words)
encode_subpage_round_trip_example = encode_subpage_round_trip 0 words words-IsSubpage

-- One value that fills the entries up to the last bytes.
abbrev long_value : Bytes
long_value = 0 ∷ replicate 65000 1

abbrev long_word : List Bytes
long_word = long_value ∷ []

abbrev other_value : Bytes
other_value = 9 ∷ replicate 999 9

long_body : length (body 0 long_word) ≡ 65003
unfolding body entry le_bytes
long_body =
    omega (arith, length-append (replicate {A = ℕ} 65000 1) [], length-replicate {A = ℕ} 65000 1)

long_word-IsSubpage : IsSubpage 0 long_word
long_word-IsSubpage = record {
  sized = (omega (arith, length-replicate {A = ℕ} 65000 1), tt);
  sorted = (tt, tt);
  few = omega arith;
  small = omega (arith, long_body);
}

two_entries : (v w : Bytes) → length (body 0 (v ∷ w ∷ [])) ≡ 4 + length v + length w
unfolding body entry le_bytes
two_entries v w = omega (arith, length-append v (entry 0 w ++ []), length-append (entry 0 w) [])

long_word_full : 2 ^ 16 ≤ length (body 0 (put_sorted other_value long_word))
unfolding put_sorted compare_bytes
long_word_full = omega (
  arith,
  two_entries long_value other_value,
  length-replicate {A = ℕ} 65000 1,
  length-replicate {A = ℕ} 999 9,
)

insert_too_large_example : insert (reader 0 long_word) other_value ≡ err corrupted
insert_too_large_example =
    insert_too_large 0 long_word other_value long_word-IsSubpage
      (omega (arith, length-replicate {A = ℕ} 999 9)) long_word_full

-- The bytes of `words`.
abbrev words_bytes : Bytes
words_bytes = 2 ∷ 0 ∷ 8 ∷ 0 ∷ 1 ∷ 0 ∷ 1 ∷ 3 ∷ 0 ∷ 1 ∷ 2 ∷ 3 ∷ []

abbrev words_reader : SubpageReader
words_reader = record { buf = words_bytes; count = 2; data_size = 8; fixed_value_size = 0 }

words_bytes-AllBytes : AllBytes words_bytes
words_bytes-AllBytes = ground arith

words_opened : new_subpage_reader words_bytes 0 ≡ ok words_reader
unfolding new_subpage_reader get_uint16 from_le
words_opened = refl

words_size : length words_bytes ≡ size_bytes words_reader
unfolding size_bytes
words_size = refl

words_accepted : validate words_reader ≡ ok tt
unfolding validate validate_entries validate_variable size_bytes uint16_of slice_of behind in_order
    get_uint16 from_le compare_bytes
words_accepted = refl

validate_sound_example : (vs : List Bytes) × (words_bytes ≡ image 0 vs) × IsSubpage 0 vs
validate_sound_example =
    validate_sound words_bytes words_reader words_bytes-AllBytes words_opened words_size
      words_accepted
