-- ===== src/Groups/Slices.antt =====
-- The slices of a topic's partitions that the range policies give to the members, one after another.
use portask.Prelude.{
  ℕ, zero, suc, ◌+◌, ◌*◌, ◌-◌, ◌/◌, ◌%◌, ◌≤◌, ◌<◌, ◌≡◌, refl, ap, Option, none, some, List, [], ◌∷◌,
  ◌++◌, length, take, drop, length-take, length-drop, ltb, leb, if◌then◌else◌, arith, leb-true, min,
}
use native.Mathlib.Nat.{div-add-mod, mod-lt, suc-mul, suc-add}

-- `parts[lo : lo + n]`, which panics past the end.
unfoldable pub slice : ℕ → ℕ → List ℕ → Option (List ℕ)
slice lo n parts = if leb (lo + n) (length parts) then some (take n (drop lo parts)) else none

-- The number of partitions of the member `i`.
abbrev pub share : ℕ → ℕ → ℕ → ℕ
share per_member remainder i = if ltb i remainder then per_member + 1 else per_member

unfoldable pub concat : List (List ℕ) → List ℕ
concat [] = []
concat (s ∷ rest) = s ++ concat rest

-- Every slice is as long as the share of its member.
abbrev pub Shares : ℕ → ℕ → ℕ → List (List ℕ) → Type 0
Shares per_member remainder i [] = Unit {0}
Shares per_member remainder i (s ∷ rest) =
    (length s ≡ share per_member remainder i) × Shares per_member remainder (i + 1) rest

-- The partitions that the members from `i` on get.
unfoldable pub owed : ℕ → ℕ → ℕ → ℕ → ℕ
owed zero per_member remainder i = 0
owed (suc members) per_member remainder i =
    share per_member remainder i + owed members per_member remainder (i + 1)

owed-eq :
    (members per_member remainder i : ℕ)
    → owed members per_member remainder i ≡ members * per_member + min members (remainder - i)
unfolding owed
owed-eq zero per_member remainder i = omega arith
owed-eq (suc members) per_member remainder i =
    let rest = owed-eq members per_member remainder (i + 1) in
    let more = suc-mul members per_member in ground (arith, rest, more)

pub drop_all : (parts : List ℕ) → drop (length parts) parts ≡ []
drop_all [] = refl
drop_all (x ∷ parts) = drop_all parts

pub drop_add : (m n : ℕ) (parts : List ℕ) → drop (m + n) parts ≡ drop n (drop m parts)
drop_add zero n parts = ap (λ k. drop k parts) (omega arith)
drop_add (suc m) zero [] = rw (suc-add m 0) refl
drop_add (suc m) (suc n) [] = rw (suc-add m (suc n)) refl
drop_add (suc m) n (x ∷ parts) = rw (suc-add m n) (drop_add m n parts)

within : (p n r : ℕ) {t : ℕ} → p + (n + r) ≡ t → p + n ≤ t
within p n r e = omega (arith, e)

pub taken :
    (n p r : ℕ) (parts : List ℕ) → p + (n + r) ≡ length parts → length (take n (drop p parts)) ≡ n
taken n p r parts e = omega (arith, length-take n (drop p parts), length-drop p parts, e)

pub slice-fits :
    (p n r : ℕ) (parts : List ℕ)
    → p + (n + r) ≡ length parts
    → slice p n parts ≡ some (take n (drop p parts))
unfolding slice
slice-fits p n r parts e = rw (leb-true (p + n) (length parts) (within p n r e)) refl

whole : (m : ℕ) (q : ℕ) {r n t : ℕ} → q + r ≡ n → r < m → t ≡ q + min m (r - 0) → 0 + t ≡ n
whole m q d r o = omega arith

pub owed_all : (members n : ℕ) → 0 < members → 0 + owed members (n / members) (n % members) 0 ≡ n
owed_all members n h =
    let d = div-add-mod n members in
    let r = mod-lt n h in
    let o = owed-eq members (n / members) (n % members) 0 in
    whole members (members * (n / members)) d r o
