-- ===== src/Indexing/Key/Steps.antt =====
-- One round of each loop of internal/indexing/key.go, on a zero byte and on any other.
use gmdb.Common.{ℕ, suc, List, [], ◌∷◌, ◌++◌, Bytes, ◌>>=◌, length-append, ◌≡◌, refl, arith}
use gmdb.Indexing.Key.{escape_bytes, unescape_bytes, unescape_column, encode_key, decode_loop}

pub escape_nil : escape_bytes [] ≡ []
unfolding escape_bytes
escape_nil = refl

pub escape_zero : (c : Bytes) → escape_bytes (0 ∷ c) ≡ 0 ∷ 0xff ∷ escape_bytes c
unfolding escape_bytes
escape_zero c = refl

pub escape_plain : (b : ℕ) (c : Bytes) → escape_bytes (suc b ∷ c) ≡ suc b ∷ escape_bytes c
unfolding escape_bytes
escape_plain b c = ground arith

pub unescape_pair :
    (l out : Bytes) → unescape_bytes (0 ∷ 0xff ∷ l) out ≡ unescape_bytes l (out ++ 0 ∷ [])
unfolding unescape_bytes
unescape_pair l out = refl

pub unescape_plain :
    (b : ℕ) (l out : Bytes) → unescape_bytes (suc b ∷ l) out ≡ unescape_bytes l (out ++ suc b ∷ [])
unfolding unescape_bytes
unescape_plain b [] out = ground arith
unescape_plain b (n ∷ l) out = ground arith

pub decode_pair :
    (l : Bytes) (cols : List Bytes) (escaped : Bytes)
    → decode_loop (0 ∷ 0xff ∷ l) cols escaped ≡ decode_loop l cols (escaped ++ 0 ∷ 0xff ∷ [])
unfolding decode_loop
decode_pair l cols escaped = refl

pub decode_close :
    (l : Bytes) (cols : List Bytes) (escaped : Bytes)
    → decode_loop (0 ∷ 0 ∷ l) cols escaped
      ≡ (unescape_column escaped >>= λ col. decode_loop l (cols ++ col ∷ []) [])
unfolding decode_loop
decode_close l cols escaped = refl

pub decode_plain :
    (b : ℕ) (l : Bytes) (cols : List Bytes) (escaped : Bytes)
    → decode_loop (suc b ∷ l) cols escaped ≡ decode_loop l cols (escaped ++ suc b ∷ [])
unfolding decode_loop
decode_plain b [] cols escaped = ground (arith, length-append escaped (suc b ∷ []))
decode_plain b (n ∷ l) cols escaped = ground arith

pub encode_nil : encode_key [] ≡ []
unfolding encode_key
encode_nil = refl

pub encode_cons :
    (c : Bytes) (cols : List Bytes)
    → encode_key (c ∷ cols) ≡ escape_bytes c ++ (0 ∷ 0 ∷ encode_key cols)
unfolding encode_key
encode_cons c cols = refl

pub ruleset escape_steps = (escape_nil, escape_zero, escape_plain)
