-- ===== src/Page/Subpage/Reads.antt =====
-- Reads that succeed, and the variable-size loop of Validate run backwards (internal/page/subpage.go).
use gmdb.Common.{
  ℕ, zero, suc, ◌+◌, ◌-◌, ◌*◌, ◌/◌, ◌%◌, ◌^◌, ◌≤◌, ◌<◌, List, [], ◌∷◌, ◌++◌, Bool, true, false,
  Bytes, AllBytes, Option, none, some, Result, ok, err, All, leb, ◌==◌, ◌>>=◌, ◌>>◌, guard, length,
  take, drop, take-append-drop, length-take, length-append, drop-append_at, append_assoc, ◌≡◌, ◌≢◌,
  inl, inr, Bool-cases, refl, sym, ap, arith, ◌∙◌,
}
use gmdb.Common.Order.{compare_bytes}
use gmdb.Common.Buffer.{le_bytes, from_le, get_uint16}
use gmdb.Common.Buffer.Laws.{length-le_bytes}
use gmdb.Page.Subpage.{Fault, corrupted, slice_of, uint16_of, in_order, behind, validate_variable}
use gmdb.Page.Subpage.Image.{Sized, entry, body}
use gmdb.Page.Subpage.Sorted.{Ordering-cases, IsSorted, Above, Above-trans}
use gmdb.Page.Subpage.RoundTrip.{Follows}

pub err-ne-ok : {A : Type 0} {e : Fault} {a : A} → err e ≢ ok a
err-ne-ok = cc

pub ok_injective : {A : Type 0} {a b : A} → ◌≡◌ {A = Result Fault A} (ok a) (ok b) → a ≡ b
ok_injective h = cc

pub bind_ok :
    {A B : Type 0} (m : Result Fault A) (f : A → Result Fault B) (y : B)
    → (m >>= f) ≡ ok y
    → (x : A) × (m ≡ ok x) × (f x ≡ ok y)
bind_ok (ok a) f y h = (a, refl, h)
bind_ok (err e) f y h = cc

pub guard_ok : (b : Bool) (e : Fault) → guard b e ≡ ok tt → b ≡ true
guard_ok true e h = refl
guard_ok false e h = cc

pub uint16_ok :
    (front rest : Bytes) (off n : ℕ)
    → length front ≡ off
    → AllBytes rest
    → uint16_of (front ++ rest) off ≡ ok n
    → (more : Bytes) × (rest ≡ le_bytes 2 n ++ more) × AllBytes more × (n < 2 ^ 16)
unfolding uint16_of get_uint16
uint16_ok front [] off n e h k =
    let short : leb (off + 2) (length (front ++ [])) ≡ false =
      ground (arith, length-append front []) in
    absurd (err-ne-ok (rw short at k))
uint16_ok front (a ∷ []) off n e h k =
    let short : leb (off + 2) (length (front ++ a ∷ [])) ≡ false =
      ground (arith, length-append front (a ∷ [])) in
    absurd (err-ne-ok (rw short at k))
uint16_ok front (a ∷ b ∷ more) off n e h k =
    let whole = length-append front (a ∷ b ∷ more) in
    let long : leb (off + 2) (length (front ++ a ∷ b ∷ more)) ≡ true = ground arith in
    let read : uint16_of (front ++ a ∷ b ∷ more) off ≡ ok (from_le (a ∷ b ∷ [])) =
      rw (long, drop-append_at off front (a ∷ b ∷ more) e) refl in
    let same : from_le (a ∷ b ∷ []) ≡ n = ok_injective (sym read ∙ k) in
    let value : n ≡ a + 256 * b = unfold from_le in omega (arith, same) in
    let low : n % 256 ≡ a = omega (arith, value, h.0, h.1.0) in
    let high : n / 256 % 256 ≡ b = omega (arith, value, h.0, h.1.0) in
    (more, unfold le_bytes in rw (low, high), h.1.1, omega (arith, value, h.0, h.1.0))

slice_ok :
    (front rest cur : Bytes) (lo n : ℕ)
    → length front ≡ lo
    → slice_of (front ++ rest) lo (lo + n) ≡ ok cur
    → (length cur ≡ n) × (rest ≡ cur ++ drop n rest)
unfolding slice_of
slice_ok front rest cur lo n e h =
    let below : leb lo (lo + n) ≡ true = ground arith in
    elim (Bool-cases (leb (lo + n) (length (front ++ rest)))) [
      | inl inside ↦
          let whole = length-append front rest in
          let room : n ≤ length rest = ground arith in
          let width : lo + n - lo ≡ n = omega arith in
          let read : slice_of (front ++ rest) lo (lo + n) ≡ ok (take n rest) =
            rw (below, inside, drop-append_at lo front rest e, width) refl in
          let same : take n rest ≡ cur = ok_injective (sym read ∙ h) in
          (
            rw (← same) (omega (arith, length-take n rest)),
            rw (← same) (sym (take-append-drop n rest)),
          )
      | inr outside ↦ absurd (err-ne-ok (rw (below, outside) at h))
    ]

behind_ok : (prev : Option Bytes) (cur : Bytes) → behind prev cur ≡ ok tt → Follows prev (cur ∷ [])
unfolding behind in_order
behind_ok none cur h = tt
behind_ok (some p) cur h = elim (Ordering-cases (compare_bytes p cur)) [
  | inl lt ↦ (lt, tt)
  | inr (inl eq) ↦ absurd (err-ne-ok (rw (behind, in_order, eq) at h))
  | inr (inr gt) ↦ absurd (err-ne-ok (rw (behind, in_order, gt) at h))
]

Follows-cons :
    (prev : Option Bytes) (cur : Bytes) (vs : List Bytes)
    → Follows prev (cur ∷ [])
    → Above cur vs
    → Follows prev (cur ∷ vs)
Follows-cons none cur vs h k = tt
Follows-cons (some p) cur vs h k = (h.0, Above-trans p cur vs h.0 k)

-- The values that the loop has seen.
unfoldable pub Seen : ℕ → Bytes → Option Bytes → Type 0
Seen n rest prev =
    (vs : List Bytes) × (rest ≡ body 0 vs)
    × (length vs ≡ n)
    × All (Sized 0) vs
    × IsSorted vs
    × Follows prev vs

pub empty_rest : (rest : Bytes) → length rest ≡ 0 → rest ≡ []
empty_rest [] h = refl
empty_rest (b ∷ rest) h = absurd (omega arith)

AllBytes-drop : (n : ℕ) (bs : Bytes) → AllBytes bs → AllBytes (drop n bs)
AllBytes-drop zero bs h = h
AllBytes-drop (suc n) [] h = tt
AllBytes-drop (suc n) (b ∷ bs) h = AllBytes-drop n bs h.1

rest_split :
    (vl : ℕ) (more cur : Bytes) (vs : List Bytes)
    → more ≡ cur ++ drop vl more
    → length cur ≡ vl
    → drop vl more ≡ body 0 vs
    → le_bytes 2 vl ++ more ≡ (le_bytes 2 (length cur) ++ cur) ++ body 0 vs
rest_split vl more cur vs b c same =
    ap (λ (m : Bytes). le_bytes 2 vl ++ m) (b ∙ ap (λ (m : Bytes). cur ++ m) same)
    ∙ sym (append_assoc (le_bytes 2 vl) cur (body 0 vs))
    ∙ ap (λ (k : ℕ). (le_bytes 2 k ++ cur) ++ body 0 vs) (sym c)

Follows-nil : (prev : Option Bytes) → Follows prev []
Follows-nil none = tt
Follows-nil (some p) = tt

Seen-cons :
    (n vl : ℕ) (rest more cur : Bytes) (prev : Option Bytes)
    → rest ≡ le_bytes 2 vl ++ more
    → more ≡ cur ++ drop vl more
    → length cur ≡ vl
    → vl < 2 ^ 16
    → Follows prev (cur ∷ [])
    → Seen n (drop vl more) (some cur)
    → Seen (suc n) rest prev
unfolding Seen body entry
Seen-cons n vl rest more cur prev a b c d f (vs, same, count, sized, sorted, above) = (
  cur ∷ vs,
  a ∙ rest_split vl more cur vs b c same,
  omega (arith, count),
  (omega (arith, c), sized),
  (above, sorted),
  Follows-cons prev cur vs f above,
)

-- One entry of the loop, read from behind a front part, and what is left behind it.
read_entry :
    (front rest cur : Bytes) (off vl : ℕ)
    → length front ≡ off
    → AllBytes rest
    → uint16_of (front ++ rest) off ≡ ok vl
    → slice_of (front ++ rest) (off + 2) (off + 2 + vl) ≡ ok cur
    → (more : Bytes) × (ahead : Bytes) × (rest ≡ le_bytes 2 vl ++ more)
      × (more ≡ cur ++ drop vl more)
      × (length cur ≡ vl)
      × (vl < 2 ^ 16)
      × AllBytes (drop vl more)
      × (front ++ rest ≡ ahead ++ drop vl more)
      × (length ahead ≡ off + 2 + vl)
      × (2 + vl + length (drop vl more) ≡ length rest)
read_entry front rest cur off vl e b r1 r2 =
    let (more, split, bytes, small) = uint16_ok front rest off vl e b r1 in
    let prefix = le_bytes 2 vl in
    let two = length-le_bytes 2 vl in
    let behind_prefix : length (front ++ prefix) ≡ off + 2 =
      omega (arith, length-append front prefix) in
    let whole : front ++ rest ≡ (front ++ prefix) ++ more =
      ap (λ (r : Bytes). front ++ r) split ∙ sym (append_assoc front prefix more) in
    let (width, cut) =
      slice_ok (front ++ prefix) more cur (off + 2) vl behind_prefix
        (ap (λ (r : Bytes). slice_of r (off + 2) (off + 2 + vl)) (sym whole) ∙ r2) in
    let left = drop vl more in
    let total = ap (λ (r : Bytes). length r) split in
    let total_more = ap (λ (r : Bytes). length r) cut in
    (
      more,
      (front ++ prefix) ++ cur,
      split,
      cut,
      width,
      small,
      AllBytes-drop vl more bytes,
      whole
          ∙ ap (λ (r : Bytes). (front ++ prefix) ++ r) cut
          ∙ sym (append_assoc (front ++ prefix) cur left),
      omega (arith, length-append (front ++ prefix) cur),
      omega (arith, total, total_more, length-append prefix more, length-append cur left),
    )

pub validate_variable_sound :
    (n : ℕ) (front rest : Bytes) (off end : ℕ) (prev : Option Bytes)
    → length front ≡ off
    → off + length rest ≡ end
    → AllBytes rest
    → validate_variable (front ++ rest) end n off prev ≡ ok tt
    → Seen n rest prev
unfolding validate_variable
validate_variable_sound zero front rest off end prev e k b h =
    let at_end = guard_ok (off == end) corrupted h in
    let nothing = empty_rest rest (ground arith) in
    unfold Seen body in ([], nothing, refl, tt, tt, Follows-nil prev)
validate_variable_sound (suc n) front rest off end prev e k b h =
    let buf = front ++ rest in
    let go : ℕ → Bytes → Result Fault (Unit {0}) =
      λ vl cur. behind prev cur >> validate_variable buf end n (off + 2 + vl) (some cur) in
    let body_read : ℕ → Result Fault (Unit {0}) = λ vl.
      guard (leb (off + 2 + vl) end) corrupted
      >> (slice_of buf (off + 2) (off + 2 + vl) >>= go vl) in
    let (_, g1, h1) =
      bind_ok (guard (leb (off + 2) end) corrupted) (λ _. uint16_of buf off >>= body_read) tt h in
    let (vl, r1, h2) = bind_ok (uint16_of buf off) body_read tt h1 in
    let (_, g2, h3) =
      bind_ok (guard (leb (off + 2 + vl) end) corrupted)
        (λ _. slice_of buf (off + 2) (off + 2 + vl) >>= go vl) tt h2 in
    let (cur, r2, h4) = bind_ok (slice_of buf (off + 2) (off + 2 + vl)) (go vl) tt h3 in
    let (_, r3, h5) =
      bind_ok (behind prev cur) (λ _. validate_variable buf end n (off + 2 + vl) (some cur)) tt
        h4 in
    let (more, ahead, split, cut, width, small, bytes, whole, place, total) =
      read_entry front rest cur off vl e b r1 r2 in
    let later =
      validate_variable_sound n ahead (drop vl more) (off + 2 + vl) end (some cur) place
        (omega arith) bytes
        (ap (λ (r : Bytes). validate_variable r end n (off + 2 + vl) (some cur)) (sym whole)
          ∙ h5) in
    Seen-cons n vl rest more cur prev split cut width small (behind_ok prev cur r3) later
