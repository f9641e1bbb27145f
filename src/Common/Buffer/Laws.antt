-- ===== src/Common/Buffer/Laws.antt =====
-- Laws of little-endian integers and of buffer writes.
use Prim.Native.Nat.{ℕ, zero, suc, ◌+◌, ◌-◌, ◌/◌, ◌^◌, ◌<◌}
use Prim.Native.Nat.add
use mathlib.Core.Path.{◌≡◌, refl, ap, ◌∙◌}
use mathlib.Core.List.{List, [], ◌∷◌, ◌++◌, append_assoc}
use native.Mathlib.Omega.{arith}
use native.Mathlib.Nat.{pow-suc}
use gmdb.Common.Lists.{Bytes, AllBytes, length, drop, replicate, length-append, take-append_left}
use gmdb.Common.Buffer.{le_bytes, from_le, put, put_all, concat}

pub length-le_bytes : (n v : ℕ) → length (le_bytes n v) ≡ n
unfolding le_bytes
length-le_bytes zero v = refl
length-le_bytes (suc n) v = ap suc (length-le_bytes n (v / 256))

pub from_le-le_bytes : (n v : ℕ) → v < 256 ^ n → from_le (le_bytes n v) ≡ v
unfolding le_bytes from_le
from_le-le_bytes zero v h = omega arith
from_le-le_bytes (suc n) v h =
    omega (arith, pow-suc 256 n, from_le-le_bytes n (v / 256) (omega (arith, pow-suc 256 n)))

pub from_le_bound : (bs : Bytes) → AllBytes bs → from_le bs < 256 ^ length bs
unfolding from_le
from_le_bound [] h = omega arith
from_le_bound (b ∷ bs) (hb, h) = omega (arith, pow-suc 256 (length bs), from_le_bound bs h)

pub le_bytes-AllBytes : (n v : ℕ) → AllBytes (le_bytes n v)
unfolding le_bytes
le_bytes-AllBytes zero v = tt
le_bytes-AllBytes (suc n) v = (omega arith, le_bytes-AllBytes n (v / 256))

pub drop-append_more : (xs ys : Bytes) (n : ℕ) → drop (length xs + n) (xs ++ ys) ≡ drop n ys
drop-append_more [] ys n = rw add.zero
drop-append_more (x ∷ xs) ys n = rw add.suc (drop-append_more xs ys n)

-- A write just behind a front part.
pub put-append :
    (front rest bs : Bytes)
    → put (length front) bs (front ++ rest) ≡ (front ++ bs) ++ drop (length bs) rest
unfolding put
put-append front rest bs =
    rw (take-append_left front rest, drop-append_more front rest (length bs), append_assoc front bs)

drop-nil : (n : ℕ) → drop {A = ℕ} n [] ≡ []
drop-nil zero = refl
drop-nil (suc n) = refl

pub drop-drop : (a b : ℕ) (xs : Bytes) → drop b (drop a xs) ≡ drop (a + b) xs
drop-drop zero b xs = rw add.zero
drop-drop (suc a) b [] = rw (drop-nil b, drop-nil (suc a + b))
drop-drop (suc a) b (x ∷ xs) = rw add.suc (drop-drop a b xs)

pub put_all_front :
    (parts : List Bytes) (front rest : Bytes)
    → put_all (length front) parts (front ++ rest)
      ≡ front ++ (concat parts ++ drop (length (concat parts)) rest)
unfolding put_all concat
put_all_front [] front rest = refl
put_all_front (bs ∷ parts) front rest =
    rw
      (
        put-append front rest bs,
        ← length-append front bs,
        put_all_front parts (front ++ bs) (drop (length bs) rest),
      )
      (rw (
        append_assoc front bs,
        append_assoc bs (concat parts),
        length-append bs (concat parts),
        drop-drop,
      ))

-- Writes one behind the other from the start replace the front of the buffer and keep the rest.
pub put_all-concat :
    (parts : List Bytes) (buf : Bytes)
    → put_all 0 parts buf ≡ concat parts ++ drop (length (concat parts)) buf
put_all-concat parts buf = put_all_front parts [] buf

pub drop-replicate : (k n : ℕ) → drop k (replicate {A = ℕ} n 0) ≡ replicate (n - k) 0
drop-replicate zero n = let all : n - 0 ≡ n = omega arith in rw all
drop-replicate (suc k) zero = let nothing : 0 - suc k ≡ 0 = omega arith in rw nothing
drop-replicate (suc k) (suc n) =
    let less : suc n - suc k ≡ n - k = omega arith in rw less (drop-replicate k n)

-- A write over zeros just behind a front part.
pub put_over_zeros :
    (front bs : Bytes) (off n : ℕ)
    → length front ≡ off
    → put off bs (front ++ replicate n 0) ≡ (front ++ bs) ++ replicate (n - length bs) 0
put_over_zeros front bs off n e =
    rw (← e) (put-append front (replicate n 0) bs ∙ rw (drop-replicate (length bs) n))
