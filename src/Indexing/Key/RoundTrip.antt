-- ===== src/Indexing/Key/RoundTrip.antt =====
-- What `EncodeKey` writes is read back by `DecodeKey` (internal/indexing/key.go).
use gmdb.Common.{
  zero, suc, List, [], ◌∷◌, ◌++◌, false, Bytes, ok, ◌>>=◌, ◌≡◌, refl, sym, ◌∙◌, ap, arith,
  append_assoc, append-nil,
}
use gmdb.Indexing.Key.Steps.{
  escape_nil, escape_zero, escape_plain, unescape_pair, unescape_plain, decode_pair, decode_close,
  decode_plain, encode_cons,
}
use gmdb.Indexing.Key.{
  count_zeros, escape_bytes, escape_column, contains_zero, unescape_bytes, unescape_column,
  encode_key, decode_loop, decode_key,
}

-- Without a zero byte the escaping loop copies its input.
escape_bytes-count_zeros : (c : Bytes) → count_zeros c ≡ 0 → escape_bytes c ≡ c
unfolding count_zeros escape_bytes
escape_bytes-count_zeros [] h = refl
escape_bytes-count_zeros (b ∷ c) h = ground (arith, escape_bytes-count_zeros c)

-- The fast path of `EscapeColumn` gives what its loop would.
pub escape_column-escape_bytes : (c : Bytes) → escape_column c ≡ escape_bytes c
unfolding escape_column
escape_column-escape_bytes c = ground (arith, escape_bytes-count_zeros c)

pub unescape_bytes-escape_bytes :
    (c out : Bytes) → unescape_bytes (escape_bytes c) out ≡ ok (out ++ c)
unescape_bytes-escape_bytes [] out =
    unfold escape_bytes unescape_bytes in ap ok (sym (append-nil out))
unescape_bytes-escape_bytes (zero ∷ c) out =
    rw (escape_zero, unescape_pair, unescape_bytes-escape_bytes c)
      (ap ok (append_assoc out (0 ∷ []) c))
unescape_bytes-escape_bytes (suc b ∷ c) out =
    rw (escape_plain, unescape_plain, unescape_bytes-escape_bytes c)
      (ap ok (append_assoc out (suc b ∷ []) c))

-- Bytes that hold no zero are escaped already.
unescape_bytes-contains_zero :
    (c out : Bytes) → contains_zero c ≡ false → unescape_bytes c out ≡ ok (out ++ c)
unfolding contains_zero
unescape_bytes-contains_zero [] out h = unfold unescape_bytes in ap ok (sym (append-nil out))
unescape_bytes-contains_zero (zero ∷ c) out h = cc
unescape_bytes-contains_zero (suc b ∷ c) out h =
    rw (unescape_plain, unescape_bytes-contains_zero c (out ++ suc b ∷ []) (ground arith))
      (ap ok (append_assoc out (suc b ∷ []) c))

-- The fast path of `UnescapeColumn` gives what its loop would.
pub unescape_column-unescape_bytes : (c : Bytes) → unescape_column c ≡ unescape_bytes c []
unfolding unescape_column
unescape_column-unescape_bytes c = ground (arith, unescape_bytes-contains_zero c [])

-- UnescapeColumn reverses EscapeColumn on every column.
pub unescape_column-escape_column : (c : Bytes) → unescape_column (escape_column c) ≡ ok c
unescape_column-escape_column c =
    rw (escape_column-escape_bytes, unescape_column-unescape_bytes)
      (unescape_bytes-escape_bytes c [])

-- The loop reads an escaped column up to its terminator.
pub decode_column :
    (c rest : Bytes) (cols : List Bytes) (escaped : Bytes)
    → decode_loop (escape_bytes c ++ (0 ∷ 0 ∷ rest)) cols escaped ≡ (
        unescape_column (escaped ++ escape_bytes c) >>= λ col.
        decode_loop rest (cols ++ col ∷ []) [])
decode_column [] rest cols escaped = rw (escape_nil, decode_close, append-nil)
decode_column (zero ∷ c) rest cols escaped = rw (
  escape_zero,
  decode_pair,
  decode_column c rest cols (escaped ++ 0 ∷ 0xff ∷ []),
  append_assoc escaped,
)
decode_column (suc b ∷ c) rest cols escaped = rw (
  escape_plain,
  decode_plain,
  decode_column c rest cols (escaped ++ suc b ∷ []),
  append_assoc escaped,
)

decode_loop-encode_key :
    (cols done : List Bytes) → decode_loop (encode_key cols) done [] ≡ ok (done ++ cols)
decode_loop-encode_key [] done = unfold encode_key decode_loop in ap ok (sym (append-nil done))
decode_loop-encode_key (c ∷ cols) done =
    rw
      (
        encode_cons,
        decode_column c (encode_key cols) done [],
        unescape_column-unescape_bytes,
        unescape_bytes-escape_bytes c [],
      )
      (decode_loop-encode_key cols (done ++ c ∷ []) ∙ ap ok (append_assoc done (c ∷ []) cols))

-- DecodeKey returns the columns that EncodeKey was given, whatever bytes they hold.
pub decode_key-encode_key : (cols : List Bytes) → decode_key (encode_key cols) ≡ ok cols
unfolding decode_key
decode_key-encode_key cols = decode_loop-encode_key cols []
