-- ===== src/Indexing/SetPk/RoundTrip.antt =====
-- Compound primary keys are read back (internal/indexing/setpk.go).
use gmdb.Common.{
  ℕ, zero, suc, ◌+◌, List, [], ◌∷◌, ◌++◌, false, Bytes, Option, none, some, ok, length, ◌≡◌, refl,
  ap, ◌∙◌, arith, append_assoc, append-nil,
}
use gmdb.Indexing.Key.{escape_bytes, escape_column, encode_key}
use gmdb.Indexing.Key.RoundTrip.{escape_column-escape_bytes, unescape_column-escape_column}
use gmdb.Indexing.Key.Steps.{escape_nil, escape_zero, escape_plain, encode_nil, encode_cons}
use gmdb.Indexing.SetPk.{
  encode_set_compound_pk, halves, split_loop, decode_set_compound_pk, encode_set_entry_key, keep,
  finish, extract_loop, extract_set_compound_pk,
}
use gmdb.Indexing.SetPk.Steps.{
  split_separator, split_pair, split_plain, keep-append, extract_plain, extract_pair,
  extract_separator, extract_start, extract_before, extract_end,
}

-- The scan stops at the first 00 01, which is the separator.
split-escape_bytes :
    (k rest front : Bytes)
    → split_loop (escape_bytes k ++ (0 ∷ 1 ∷ rest)) front ≡ halves (front ++ escape_bytes k) rest
split-escape_bytes [] rest front = rw (escape_nil, split_separator, append-nil)
split-escape_bytes (zero ∷ k) rest front = rw (
  escape_zero,
  split_pair,
  split-escape_bytes k rest (front ++ 0 ∷ 0xff ∷ []),
  append_assoc front,
)
split-escape_bytes (suc b ∷ k) rest front =
    rw (
      escape_plain,
      split_plain,
      split-escape_bytes k rest (front ++ suc b ∷ []),
      append_assoc front,
    )

halves-escape_column : (k v : Bytes) → halves (escape_column k) (escape_column v) ≡ ok (k, v)
unfolding halves
halves-escape_column k v = rw (unescape_column-escape_column k, unescape_column-escape_column v)

-- DecodeSetCompoundPK returns the set key and the set value that EncodeSetCompoundPK was given.
pub decode-encode_set_compound_pk :
    (k v : Bytes) → decode_set_compound_pk (encode_set_compound_pk k v) ≡ ok (k, v)
unfolding decode_set_compound_pk encode_set_compound_pk
decode-encode_set_compound_pk k v =
    rw
      (
        escape_column-escape_bytes k,
        split-escape_bytes k (escape_column v) [],
        ← escape_column-escape_bytes k,
      )
      (halves-escape_column k v)

extract-escape_bytes :
    (n : ℕ) (c rest : Bytes) (t : ℕ) (pk : Option Bytes)
    → extract_loop n (escape_bytes c ++ rest) t pk
      ≡ extract_loop n rest t (keep pk (escape_bytes c))
extract-escape_bytes n [] rest t none = rw escape_nil (unfold keep in refl)
extract-escape_bytes n [] rest t (some pk) = rw escape_nil (unfold keep in rw append-nil)
extract-escape_bytes n (zero ∷ c) rest t pk =
    rw (escape_zero, extract_pair, extract-escape_bytes n c rest t _, keep-append)
extract-escape_bytes n (suc b ∷ c) rest t pk =
    rw (escape_plain, extract_plain, extract-escape_bytes n c rest t _, keep-append)

keep-none : (bs : Bytes) → keep none bs ≡ none
unfolding keep
keep-none bs = refl

-- The loop reads one column of the key, up to its terminator.
extract_column :
    (n : ℕ) (c : Bytes) (cols : List Bytes) (tail : Bytes) (t : ℕ)
    → extract_loop n (encode_key (c ∷ cols) ++ tail) t none
      ≡ extract_loop n (0 ∷ 0 ∷ (encode_key cols ++ tail)) t none
extract_column n c cols tail t = rw (
  encode_cons c cols,
  append_assoc (escape_bytes c),
  extract-escape_bytes n c _ t none,
  keep-none,
)

-- The columns before the primary key are skipped, all of them.
extract-encode_key :
    (n : ℕ) (c : Bytes) (cols : List Bytes) (tail : Bytes) (t : ℕ)
    → t + length (c ∷ cols) ≡ n
    → extract_loop n (encode_key (c ∷ cols) ++ tail) t none ≡ extract_loop n tail n (some [])
extract-encode_key n c [] tail t h =
    rw (extract_column n c [] tail t, encode_nil) (extract_start n tail t none (omega arith))
extract-encode_key n c (d ∷ cols) tail t h =
    rw
      (
        extract_column n c (d ∷ cols) tail t,
        extract_before n (encode_key (d ∷ cols) ++ tail) t (omega arith),
      )
      (extract-encode_key n d cols tail (suc t) (omega arith))

-- From the start of the primary key on, the loop keeps what it reads, up to the terminator.
extract_compound :
    (n : ℕ) (k v : Bytes)
    → extract_loop n (encode_set_compound_pk k v ++ (0 ∷ 0 ∷ [])) n (some [])
      ≡ ok (encode_set_compound_pk k v)
unfolding encode_set_compound_pk
extract_compound n k v =
    rw
      (
        escape_column-escape_bytes k,
        escape_column-escape_bytes v,
        append_assoc (escape_bytes k),
        extract-escape_bytes n k _ n (some []),
        extract_separator n _ n _,
        keep-append,
        extract-escape_bytes n v (0 ∷ 0 ∷ []) n _,
        keep-append,
      )
      (unfold keep in
        extract_end n [] _ ∙ unfold finish in ap ok (append_assoc (escape_bytes k) _ _))

-- ExtractSetCompoundPK returns the compound primary key of the key that EncodeSetEntryKey wrote for
-- a non-unique index of one column or more, whatever bytes the columns and the row hold.
pub extract-encode_set_entry_key :
    (c : Bytes) (cols : List Bytes) (k v : Bytes)
    → extract_set_compound_pk (encode_set_entry_key (c ∷ cols) k v false) (length (c ∷ cols))
      ≡ ok (encode_set_compound_pk k v)
unfolding extract_set_compound_pk encode_set_entry_key
extract-encode_set_entry_key c cols k v =
    extract-encode_key (length (c ∷ cols)) c cols _ 0 (omega arith) ∙ extract_compound _ k v
