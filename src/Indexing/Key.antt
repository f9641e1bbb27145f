-- ===== src/Indexing/Key.antt =====
-- internal/indexing/key.go: the NUL-escape codec for composite index keys. A byte slice is a list
-- of numbers; what a loop has not read yet is its first argument.
pub mod Steps
pub mod RoundTrip
pub mod Canonical
pub mod Order
use gmdb.Common.{
  ℕ, zero, suc, ◌+◌, List, [], ◌∷◌, ◌++◌, Bool, true, false, Bytes, Result, ok, err, ◌>>=◌, ◌==◌,
  if◌then◌else◌, length,
}

-- The cases of `ErrKeyMalformed`.
pub data KeyError : Type 0 where
  lone_zero : KeyError
  bad_pair : ℕ → KeyError
  trailing : ℕ → KeyError

-- The bytes of value 0 in `col`.
pub count_zeros : Bytes → ℕ
count_zeros [] = 0
count_zeros (b ∷ col) = if b == 0 then suc (count_zeros col) else count_zeros col

-- The escaping loop of `EscapeColumn` and of `EncodeKey`.
pub escape_bytes : Bytes → Bytes
escape_bytes [] = []
escape_bytes (b ∷ col) = let out = escape_bytes col in if b == 0 then 0 ∷ 0xff ∷ out else b ∷ out

-- `EscapeColumn`, with its fast path.
pub escape_column : Bytes → Bytes
unfolding count_zeros
escape_column col = if count_zeros col == 0 then col else escape_bytes col

-- `slices.Contains(escaped, 0x00)`
pub contains_zero : Bytes → Bool
contains_zero [] = false
contains_zero (b ∷ bs) = if b == 0 then true else contains_zero bs

-- The loop of `UnescapeColumn`; `out` is the column so far.
pub unescape_bytes : Bytes → Bytes → Result KeyError Bytes
unescape_bytes [] out = ok out
unescape_bytes (b ∷ []) out = if b == 0 then err lone_zero else ok (out ++ b ∷ [])
unescape_bytes (b ∷ next ∷ bs) out =
    let plain = unescape_bytes (next ∷ bs) (out ++ b ∷ []) in
    let pair = unescape_bytes bs (out ++ 0 ∷ []) in
    if b == 0 then if next == 0xff then pair else err (bad_pair next) else plain

-- `UnescapeColumn`, with its fast path.
pub unescape_column : Bytes → Result KeyError Bytes
unfolding contains_zero
unescape_column escaped = if contains_zero escaped then unescape_bytes escaped [] else ok escaped

-- `EncodeKey`: each column escaped, with its terminator.
pub encode_key : List Bytes → Bytes
encode_key [] = []
encode_key (c ∷ cols) = escape_bytes c ++ (0 ∷ 0 ∷ encode_key cols)

-- The loop of `DecodeKey`; `escaped` is `key[colStart:i]`.
pub decode_loop : Bytes → List Bytes → Bytes → Result KeyError (List Bytes)
decode_loop [] cols escaped =
    if length escaped == 0 then ok cols else err (trailing (length escaped))
decode_loop (b ∷ []) cols escaped =
    if b == 0 then err lone_zero else err (trailing (length (escaped ++ b ∷ [])))
decode_loop (b ∷ next ∷ rest) cols escaped =
    let plain = decode_loop (next ∷ rest) cols (escaped ++ b ∷ []) in
    let pair = decode_loop rest cols (escaped ++ b ∷ next ∷ []) in
    let close = unescape_column escaped >>= λ col. decode_loop rest (cols ++ col ∷ []) [] in
    if b == 0
    then if next == 0xff then pair else if next == 0 then close else err (bad_pair next)
    else plain

-- `DecodeKey`
pub decode_key : Bytes → Result KeyError (List Bytes)
unfolding decode_loop
decode_key key = decode_loop key [] []
