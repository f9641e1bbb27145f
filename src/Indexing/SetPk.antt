-- ===== src/Indexing/SetPk.antt =====
-- internal/indexing/setpk.go: the compound primary key of set-keyspace indexes,
-- escape(setKey) 00 01 escape(setValue).
mod Steps
pub mod RoundTrip
use gmdb.Common.{
  ℕ, suc, ◌+◌, List, [], ◌∷◌, ◌++◌, Bool, true, false, Bytes, Result, ok, err, ◌>>=◌, ◌==◌, ◌&&◌,
  if◌then◌else◌, Option, none, some,
}
use gmdb.Indexing.Key.{KeyError, escape_column, unescape_column, encode_key}

-- The cases of `ErrCompoundPKMalformed`.
pub data PkError : Type 0 where
  set_key_half : KeyError → PkError
  set_value_half : KeyError → PkError
  no_separator : PkError
  extra_terminator : PkError
  bad_pk_pair : ℕ → PkError
  few_terminators : ℕ → PkError

-- An error wrapped by `fmt.Errorf("%w: …")`.
abbrev pub wrap {ℓ} : {A : Type ℓ} → (KeyError → PkError) → Result KeyError A → Result PkError A
wrap f (ok a) = ok a
wrap f (err e) = err (f e)

-- `EncodeSetCompoundPK`
pub encode_set_compound_pk : Bytes → Bytes → Bytes
encode_set_compound_pk set_key set_value =
    escape_column set_key ++ (0 ∷ 1 ∷ escape_column set_value)

-- Both halves around the separator.
pub halves : Bytes → Bytes → Result PkError (Bytes × Bytes)
halves front back = do
  set_key ← wrap set_key_half (unescape_column front)
  set_value ← wrap set_value_half (unescape_column back)
  ok (set_key, set_value)

-- The loop of `DecodeSetCompoundPK`; the second argument is `encoded[:i]`.
pub split_loop : Bytes → Bytes → Result PkError (Bytes × Bytes)
split_loop [] front = err no_separator
split_loop (b ∷ []) front = err no_separator
split_loop (b ∷ next ∷ rest) front =
    let skip = split_loop rest (front ++ b ∷ next ∷ []) in
    let plain = split_loop (next ∷ rest) (front ++ b ∷ []) in
    if b == 0 && next == 1
    then halves front rest
    else if b == 0 && next == 0xff
    then skip
    else plain

-- `DecodeSetCompoundPK`
pub decode_set_compound_pk : Bytes → Result PkError (Bytes × Bytes)
unfolding split_loop
decode_set_compound_pk encoded = split_loop encoded []

-- `EncodeSetEntryKey`
pub encode_set_entry_key : List Bytes → Bytes → Bytes → Bool → Bytes
encode_set_entry_key cols set_key set_value unique =
    if unique
    then encode_key cols
    else encode_key cols ++ (encode_set_compound_pk set_key set_value ++ 0 ∷ 0 ∷ [])

-- `indexKey[pkStart:i]` one step further, where pkStart is set.
pub keep : Option Bytes → Bytes → Option Bytes
keep none bs = none
keep (some pk) bs = some (pk ++ bs)

pub finish : Option Bytes → Result PkError Bytes
finish none = err extra_terminator
finish (some pk) = ok pk

-- The loop of `ExtractSetCompoundPK`: the unread bytes, `terminators`, and `indexKey[pkStart:i]`,
-- which is `none` while pkStart is -1.
pub extract_loop : ℕ → Bytes → ℕ → Option Bytes → Result PkError Bytes
unfolding keep finish
extract_loop columns [] terminators pk = err (few_terminators terminators)
extract_loop columns (b ∷ []) terminators pk = err (few_terminators terminators)
extract_loop columns (b ∷ next ∷ rest) terminators pk =
    let plain = extract_loop columns (next ∷ rest) terminators (keep pk (b ∷ [])) in
    let pair = extract_loop columns rest terminators (keep pk (b ∷ next ∷ [])) in
    let start = extract_loop columns rest (suc terminators) (some []) in
    let other = extract_loop columns rest (suc terminators) (keep pk (b ∷ next ∷ [])) in
    if b == 0
    then if next == 0xff
      then pair
      else if next == 1
      then pair
      else if next == 0
      then if suc terminators == columns
        then start
        else if suc terminators == columns + 1
        then finish pk
        else other
      else err (bad_pk_pair next)
    else plain

-- `ExtractSetCompoundPK`
pub extract_set_compound_pk : Bytes → ℕ → Result PkError Bytes
unfolding extract_loop
extract_set_compound_pk index_key columns = extract_loop columns index_key 0 none
