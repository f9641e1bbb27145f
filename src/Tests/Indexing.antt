-- ===== src/Tests/Indexing.antt =====
-- internal/indexing at concrete inputs.
use gmdb.Common.{List, [], ◌∷◌, ◌++◌, true, false, Bytes, ok, ◌≡◌, arith, length}
use gmdb.Common.Order.{compare_bytes, compare_tuples}
use gmdb.Indexing.Key.{escape_column, unescape_column, encode_key, decode_key}
use gmdb.Indexing.Key.RoundTrip.{decode_key-encode_key, unescape_column-escape_column}
use gmdb.Indexing.Key.Canonical.{decode_key_sound}
use gmdb.Indexing.Key.Order.{compare-encode_key}
use gmdb.Indexing.SetPk.{
  encode_set_compound_pk, decode_set_compound_pk, encode_set_entry_key, extract_set_compound_pk,
}
use gmdb.Indexing.SetPk.RoundTrip.{decode-encode_set_compound_pk, extract-encode_set_entry_key}
use gmdb.Indexing.Entry.{Entry, entry_key, entry_value, covering_of, decode_unique_value}
use gmdb.Indexing.Entry.RoundTrip.{decode_unique_value-entry_value, decode_key-entry_key}

abbrev columns : List Bytes
columns = (0 ∷ 7 ∷ []) ∷ [] ∷ []

abbrev entry : Entry
entry = record { cols = columns; cover = [] }

unescape_column-escape_column_example :
    unescape_column (escape_column (0 ∷ 7 ∷ 0 ∷ [])) ≡ ok (0 ∷ 7 ∷ 0 ∷ [])
unescape_column-escape_column_example = unescape_column-escape_column (0 ∷ 7 ∷ 0 ∷ [])

decode_key-encode_key_example : decode_key (encode_key columns) ≡ ok columns
decode_key-encode_key_example = decode_key-encode_key columns

decode_key_sound_example : encode_key columns ≡ encode_key columns
decode_key_sound_example =
    decode_key_sound (encode_key columns) columns (decode_key-encode_key columns)

compare-encode_key_example :
    compare_bytes (encode_key columns) (encode_key ((0 ∷ []) ∷ []))
    ≡ compare_tuples columns ((0 ∷ []) ∷ [])
compare-encode_key_example = compare-encode_key columns ((0 ∷ []) ∷ [])

decode-encode_set_compound_pk_example :
    decode_set_compound_pk (encode_set_compound_pk (1 ∷ 0 ∷ []) (0 ∷ 1 ∷ []))
    ≡ ok (1 ∷ 0 ∷ [], 0 ∷ 1 ∷ [])
decode-encode_set_compound_pk_example = decode-encode_set_compound_pk (1 ∷ 0 ∷ []) (0 ∷ 1 ∷ [])

extract-encode_set_entry_key_example :
    extract_set_compound_pk
      (encode_set_entry_key ((0 ∷ 7 ∷ []) ∷ [] ∷ []) (0 ∷ []) (5 ∷ []) false)
      (length columns)
    ≡ ok (encode_set_compound_pk (0 ∷ []) (5 ∷ []))
extract-encode_set_entry_key_example =
    extract-encode_set_entry_key (0 ∷ 7 ∷ []) ([] ∷ []) (0 ∷ []) (5 ∷ [])

decode_unique_value-entry_value_example :
    decode_unique_value (entry_value entry (9 ∷ 8 ∷ []) true false)
    ≡ ok (9 ∷ 8 ∷ [], covering_of entry false)
decode_unique_value-entry_value_example =
    decode_unique_value-entry_value entry (9 ∷ 8 ∷ []) false (omega arith)

decode_key-entry_key_example :
    (decode_key (entry_key entry (3 ∷ []) false) ≡ ok (columns ++ (3 ∷ []) ∷ []))
    × (decode_key (entry_key entry (3 ∷ []) true) ≡ ok columns)
decode_key-entry_key_example = decode_key-entry_key entry (3 ∷ [])
