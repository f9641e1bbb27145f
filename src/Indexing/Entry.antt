-- ===== src/Indexing/Entry.antt =====
-- internal/indexing/entry.go: the keys and values of index entries. `Uvarint` is encoding/binary's.
pub mod Uvarint
pub mod RoundTrip
use gmdb.Common.{
  ℕ, suc, ◌+◌, List, [], ◌∷◌, ◌++◌, Bool, true, false, Bytes, Result, ok, err, ◌&&◌, ltb, not, ◌==◌,
  if◌then◌else◌, Option, none, some, length, take, drop,
}
use gmdb.Indexing.Key.{encode_key}
use gmdb.Indexing.Entry.Uvarint.{put_uvarint, uvarint}

-- `Entry`: one row's contribution to an index.
pub record Entry : Type 0 where
  pub cols : List Bytes
  pub cover : List Bytes

-- The cases of `ErrValueMalformed`.
pub data ValueError : Type 0 where
  bad_uvarint : ValueError
  pk_past_end : ℕ → ℕ → ValueError

-- `EntryKey`
pub entry_key : Entry → Bytes → Bool → Bytes
entry_key entry pk unique =
    if unique then encode_key entry.cols else encode_key (entry.cols ++ pk ∷ [])

-- The local `covering` of `EntryValue`.
pub covering_of : Entry → Bool → Bytes
covering_of entry has_covering =
    if has_covering && ltb 0 (length entry.cover) then encode_key entry.cover else []

-- `EntryValue`
pub entry_value : Entry → Bytes → Bool → Bool → Bytes
entry_value entry pk unique has_covering =
    if unique
    then put_uvarint (length pk) ++ (pk ++ covering_of entry has_covering)
    else covering_of entry has_covering

-- The tail of `DecodeUniqueValue`, on the length prefix and the bytes behind it.
pub split_value : Option (ℕ × Bytes) → Result ValueError (Bytes × Bytes)
split_value none = err bad_uvarint
split_value (some (pk_len, rest)) =
    if ltb (length rest) pk_len
    then err (pk_past_end pk_len (length rest))
    else ok (take pk_len rest, drop pk_len rest)

-- `DecodeUniqueValue`
pub decode_unique_value : Bytes → Result ValueError (Bytes × Bytes)
unfolding split_value
decode_unique_value value = split_value (uvarint value)
