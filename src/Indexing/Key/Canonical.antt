-- ===== src/Indexing/Key/Canonical.antt =====
-- `DecodeKey` accepts nothing but what `EncodeKey` writes (internal/indexing/key.go).
use gmdb.Common.{
  ℕ, zero, suc, List, [], ◌∷◌, ◌++◌, Bytes, ok, ◌≡◌, refl, ◌∙◌, ap, arith, append_assoc, append-nil,
  ◌⊎◌, inl, inr,
}
use gmdb.Indexing.Key.Steps.{escape_zero, escape_plain, unescape_plain, decode_plain, escape_nil}
use gmdb.Indexing.Key.{
  escape_bytes, unescape_bytes, unescape_column, encode_key, decode_loop, decode_key,
}
use gmdb.Indexing.Key.RoundTrip.{unescape_column-unescape_bytes}

pub escape_bytes-append :
    (xs ys : Bytes) → escape_bytes (xs ++ ys) ≡ escape_bytes xs ++ escape_bytes ys
escape_bytes-append [] ys = unfold escape_bytes in refl
escape_bytes-append (zero ∷ xs) ys =
    rw (escape_zero, escape_zero) (ap (λ (t : Bytes). 0 ∷ 0xff ∷ t) (escape_bytes-append xs ys))
escape_bytes-append (suc b ∷ xs) ys =
    rw (escape_plain, escape_plain) (ap (λ (t : Bytes). suc b ∷ t) (escape_bytes-append xs ys))

escape_snoc_zero : (xs : Bytes) → escape_bytes (xs ++ 0 ∷ []) ≡ escape_bytes xs ++ 0 ∷ 0xff ∷ []
escape_snoc_zero xs = rw escape_bytes-append (unfold escape_bytes in refl)

escape_snoc_plain :
    (xs : Bytes) (b : ℕ) → escape_bytes (xs ++ suc b ∷ []) ≡ escape_bytes xs ++ suc b ∷ []
escape_snoc_plain xs b = rw (escape_bytes-append, escape_plain) (unfold escape_bytes in refl)

unescape_zero_ok :
    (n : ℕ) (e out col : Bytes)
    → unescape_bytes (0 ∷ n ∷ e) out ≡ ok col
    → (n ≡ 0xff) × (unescape_bytes e (out ++ 0 ∷ []) ≡ ok col)
unfolding unescape_bytes
unescape_zero_ok n e out col h = ground arith

-- A successful run over `e` means that `e` is an escaped text.
unescape_bytes_sound :
    (e out col : Bytes) → unescape_bytes e out ≡ ok col → escape_bytes col ≡ escape_bytes out ++ e
unescape_bytes_sound [] out col h = unfold unescape_bytes in cc (append-nil (escape_bytes out), h)
unescape_bytes_sound (zero ∷ []) out col h = unfold unescape_bytes in cc
unescape_bytes_sound (zero ∷ n ∷ e) out col h =
    let (p, q) = unescape_zero_ok n e out col h in
    unescape_bytes_sound e (out ++ 0 ∷ []) col q ∙ rw (p, escape_snoc_zero, append_assoc)
unescape_bytes_sound (suc b ∷ e) out col h =
    unescape_bytes_sound e (out ++ suc b ∷ []) col (rw unescape_plain at h)
    ∙ rw (escape_snoc_plain, append_assoc)

-- What UnescapeColumn accepts is the escaped form of the column that it returns.
pub unescape_column_sound : (e col : Bytes) → unescape_column e ≡ ok col → escape_bytes col ≡ e
unescape_column_sound e col h =
    unescape_bytes_sound e [] col (rw unescape_column-unescape_bytes at h) ∙ rw escape_nil

encode_key_snoc :
    (cols : List Bytes) (col : Bytes)
    → encode_key (cols ++ col ∷ []) ≡ encode_key cols ++ (escape_bytes col ++ (0 ∷ 0 ∷ []))
unfolding encode_key
encode_key_snoc [] col = refl
encode_key_snoc (c ∷ cols) col = simp (encode_key_snoc cols col, append_assoc)

decode_zero_ok :
    (n : ℕ) (l : Bytes) (cols : List Bytes) (escaped : Bytes) (r : List Bytes)
    → decode_loop (0 ∷ n ∷ l) cols escaped ≡ ok r
    → ((n ≡ 0xff) × (decode_loop l cols (escaped ++ 0 ∷ 0xff ∷ []) ≡ ok r))
      ⊎ ((n ≡ 0)
          × ((col : Bytes) × (unescape_column escaped ≡ ok col)
              × (decode_loop l (cols ++ col ∷ []) [] ≡ ok r)))
unfolding decode_loop
decode_zero_ok n l cols escaped r h = ground arith

decode_loop_sound :
    (key : Bytes) (cols : List Bytes) (escaped : Bytes) (r : List Bytes)
    → decode_loop key cols escaped ≡ ok r
    → encode_key r ≡ encode_key cols ++ (escaped ++ key)
decode_loop_sound [] cols [] r h = unfold decode_loop in cc (append-nil (encode_key cols), h)
decode_loop_sound [] cols (x ∷ escaped) r h = unfold decode_loop in ground arith
decode_loop_sound (zero ∷ []) cols escaped r h = unfold decode_loop in cc
decode_loop_sound (zero ∷ n ∷ l) cols escaped r h = elim (decode_zero_ok n l cols escaped r h) [
  | inl (p, q) ↦
      decode_loop_sound l cols (escaped ++ 0 ∷ 0xff ∷ []) r q ∙ rw (p, append_assoc escaped)
  | inr (p, (col, u, q)) ↦
      decode_loop_sound l (cols ++ col ∷ []) [] r q
      ∙ rw (p, encode_key_snoc, unescape_column_sound escaped col u, append_assoc, append_assoc)
]
decode_loop_sound (suc b ∷ l) cols escaped r h =
    decode_loop_sound l cols (escaped ++ suc b ∷ []) r (rw decode_plain at h)
    ∙ rw (append_assoc escaped)

-- DecodeKey is strict: a key that it accepts is, byte for byte, the encoding of the columns that it
-- returns.
pub decode_key_sound :
    (key : Bytes) (cols : List Bytes) → decode_key key ≡ ok cols → encode_key cols ≡ key
unfolding decode_key
decode_key_sound key cols h = decode_loop_sound key [] [] cols h ∙ unfold encode_key in refl
