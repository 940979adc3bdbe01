-- ===== src/Prelude/Bytes.antt =====
-- Bytes: fixed-width integers of encoding/binary, and reads of io.ReadFull from a list of bytes.
use native.Mathlib.Nat.{pow-suc}
use portask.Prelude.Tests.{leb, leb-true, if◌then◌else◌, ◌==◌}
use portask.Prelude.Lists.{length, take, drop, length-append, take-append-drop, length-take}
use Prim.Native.Nat.{ℕ, zero, suc, ◌+◌, ◌*◌, ◌/◌, ◌%◌, ◌^◌, ◌<◌}
use mathlib.Core.Path.{◌≡◌, refl, ap, ap₂}
use mathlib.Core.List.{List, [], ◌∷◌, ◌++◌}
use native.Mathlib.Omega.{arith}

-- binary.BigEndian and binary.LittleEndian. A list of another length does not occur.
abbrev pub put_uint16_be : ℕ → List ℕ
put_uint16_be v = v / 2 ^ 8 % 256 ∷ v % 256 ∷ []

abbrev pub uint16_be : List ℕ → ℕ
uint16_be (a ∷ b ∷ []) = a * 2 ^ 8 + b
uint16_be _ = 0

abbrev pub put_uint32_be : ℕ → List ℕ
put_uint32_be v = v / 2 ^ 24 % 256 ∷ v / 2 ^ 16 % 256 ∷ v / 2 ^ 8 % 256 ∷ v % 256 ∷ []

abbrev pub uint32_be : List ℕ → ℕ
uint32_be (a ∷ b ∷ c ∷ d ∷ []) = a * 2 ^ 24 + b * 2 ^ 16 + c * 2 ^ 8 + d
uint32_be _ = 0

pub uint16_be-put : (v : ℕ) → v < 2 ^ 16 → uint16_be (put_uint16_be v) ≡ v
uint16_be-put v h = omega (arith, h)

pub uint32_be-put : (v : ℕ) → v < 2 ^ 32 → uint32_be (put_uint32_be v) ≡ v
uint32_be-put v h = omega (arith, h)

abbrev pub put_uint_le : ℕ → ℕ → List ℕ
put_uint_le zero v = []
put_uint_le (suc n) v = v % 256 ∷ put_uint_le n (v / 256)

abbrev pub uint_le : List ℕ → ℕ
uint_le [] = 0
uint_le (b ∷ bs) = b + 256 * uint_le bs

pub uint_le-put : (n v : ℕ) → v < 256 ^ n → uint_le (put_uint_le n v) ≡ v
uint_le-put zero v h = omega arith
uint_le-put (suc n) v h = omega (arith, uint_le-put n (v / 256) (omega (arith, pow-suc 256 n)))

pub length-put_uint_le : (n v : ℕ) → length (put_uint_le n v) ≡ n
length-put_uint_le zero v = refl
length-put_uint_le (suc n) v = ap suc (length-put_uint_le n (v / 256))

-- io.ReadFull: the bytes and what is left, or the error of a source that ends too early. Both
-- errors leave nothing to read.
pub data ReadResult : Type 0 where
  complete : List ℕ → List ℕ → ReadResult
  eof : ReadResult
  unexpected_eof : ReadResult

unfoldable pub read_full : ℕ → List ℕ → ReadResult
read_full n src =
    if leb n (length src)
    then complete (take n src) (drop n src)
    else if length src == 0
    then eof
    else unexpected_eof

pub take-append : (xs ys : List ℕ) → take (length xs) (xs ++ ys) ≡ xs
take-append [] ys = refl
take-append (x ∷ xs) ys = ap (◌∷◌ x) (take-append xs ys)

pub drop-append : (xs ys : List ℕ) → drop (length xs) (xs ++ ys) ≡ ys
drop-append [] ys = refl
drop-append (x ∷ xs) ys = drop-append xs ys

pub read_full-append :
    (n : ℕ) (xs ys : List ℕ) → length xs ≡ n → read_full n (xs ++ ys) ≡ complete xs ys
unfolding read_full
read_full-append n xs ys e =
    rw (← e, leb-true (length xs) (length (xs ++ ys)) (omega (arith, length-append {0} xs ys)))
      (ap₂ complete (take-append xs ys) (drop-append xs ys))

-- A read that completes splits its source.
pub read_full-complete :
    (n : ℕ) (src : List ℕ) {xs ys : List ℕ}
    → read_full n src ≡ complete xs ys
    → (src ≡ xs ++ ys) × (length xs ≡ n)
unfolding read_full
read_full-complete n src {xs} {ys} e = ground (arith, take-append-drop n src, length-take {0} n src)

pub drop-append_past : (xs ys : List ℕ) (n : ℕ) → n ≡ length xs → drop n (xs ++ ys) ≡ ys
drop-append_past xs ys n e = rw e (drop-append xs ys)
