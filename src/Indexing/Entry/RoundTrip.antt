-- ===== src/Indexing/Entry/RoundTrip.antt =====
-- Index entries are read back (internal/indexing/entry.go).
use gmdb.Common.{
  ℕ, ◌^◌, ◌≤◌, ◌<◌, [], ◌∷◌, ◌++◌, Bool, true, false, Bytes, ok, some, length, length-append,
  take-append_left, drop-append_left, take-append-drop, length-take, ◌≡◌, arith, none, Option-cases,
  inl, inr,
}
use gmdb.Indexing.Key.{decode_key}
use gmdb.Indexing.Key.RoundTrip.{decode_key-encode_key}
use gmdb.Indexing.Entry.Uvarint.{uvarint, uvarint-put_uvarint, uvarint_takes}
use gmdb.Indexing.Entry.{
  Entry, entry_key, entry_value, covering_of, split_value, decode_unique_value,
}

split_value-append :
    (pk covering : Bytes) → split_value (some (length pk, pk ++ covering)) ≡ ok (pk, covering)
unfolding split_value
split_value-append pk covering =
    ground
      (arith, length-append pk covering, take-append_left pk covering, drop-append_left pk covering)

-- DecodeUniqueValue returns the primary key and the encoded covering that EntryValue was given for
-- a unique index, for every key of a length that a uint64 holds.
pub decode_unique_value-entry_value :
    (entry : Entry) (pk : Bytes) (has_covering : Bool)
    → length pk < 2 ^ 64
    → decode_unique_value (entry_value entry pk true has_covering)
      ≡ ok (pk, covering_of entry has_covering)
unfolding decode_unique_value entry_value
decode_unique_value-entry_value entry pk has_covering h =
    rw (uvarint-put_uvarint (length pk) _ h) (split_value-append pk _)

split_value_ok :
    (n : ℕ) (rest pk covering : Bytes)
    → split_value (some (n, rest)) ≡ ok (pk, covering)
    → (rest ≡ pk ++ covering) × (length pk ≡ n)
unfolding split_value
split_value_ok n rest pk covering h = ground (arith, take-append-drop n rest, length-take n rest)

split_value-none : (pk covering : Bytes) → split_value none ≡ ok (pk, covering) → ⊥
unfolding split_value
split_value-none pk covering h = cc

-- A value that DecodeUniqueValue accepts is a length prefix of one to ten bytes, the key and the
-- covering, with nothing lost.
decode_unique_value_sound :
    (value pk covering : Bytes)
    → decode_unique_value value ≡ ok (pk, covering)
    → (front : Bytes) × (value ≡ front ++ (pk ++ covering))
      × (uvarint value ≡ some (length pk, pk ++ covering))
      × (1 ≤ length front)
      × (length front ≤ 10)
unfolding decode_unique_value
decode_unique_value_sound value pk covering h = elim (Option-cases (uvarint value)) [
  | inl e ↦ absurd (split_value-none pk covering (rw e at h))
  | inr ((n, rest), e) ↦
      let (parts, size) = split_value_ok n rest pk covering (rw e at h) in
      let (front, whole, lo, hi) = uvarint_takes value n rest e in
      (front, rw (← parts) whole, rw (size, ← parts) e, lo, hi)
]

-- DecodeKey returns the columns and, behind them, the primary key of the key that EntryKey wrote
-- for a non-unique index, and the columns alone for a unique one.
pub decode_key-entry_key :
    (entry : Entry) (pk : Bytes)
    → (decode_key (entry_key entry pk false) ≡ ok (entry.cols ++ pk ∷ []))
      × (decode_key (entry_key entry pk true) ≡ ok entry.cols)
unfolding entry_key
decode_key-entry_key entry pk = (decode_key-encode_key _, decode_key-encode_key _)
