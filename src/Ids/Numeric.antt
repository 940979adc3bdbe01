-- ===== src/Ids/Numeric.antt =====
-- The numeric identifiers of pkg/types/ulid.go.
use portask.Prelude.{
  ℕ, zero, suc, ◌+◌, ◌*◌, ◌-◌, ◌/◌, ◌%◌, ◌^◌, ◌<◌, ◌==◌, ==_iff, ◌≡◌, refl, sym, ap, ◌∙◌, inl, inr,
  Bool-cases, Option, none, some, List, [], ◌∷◌, arith,
}
use native.Mathlib.Nat.{div-add-mod, mod-eq_of_lt, pow-succ'}
use portask.Ids.{Text, itoa_loop, itoa, generate_numeric}

-- The number that decimal digits after `v` denote.
unfoldable pub decimal : ℕ → Text → ℕ
decimal v [] = v
decimal v (c ∷ digits) = decimal (v * 10 + (c - 48)) digits

last_digit : (n : ℕ) → n / 10 * 10 + (n % 10 + 48 - 48) ≡ n
last_digit n = omega (arith, div-add-mod n 10)

shorter : (n p : ℕ) → n < p * 10 → n / 10 < p
shorter n p h = omega (arith, div-add-mod n 10)

itoa_loop-decimal :
    (i n : ℕ) (digits : Text)
    → n < 10 ^ i
    → (t : Text) × (itoa_loop i n digits ≡ some t) × (decimal 0 t ≡ decimal n digits)
unfolding itoa_loop decimal
itoa_loop-decimal zero n digits h =
    let e : n ≡ 0 = omega (arith, h) in
    (digits, rw ((==_iff n 0).1 e) refl, ap (λ v. decimal v digits) (sym e))
itoa_loop-decimal (suc i) n digits h = elim (Bool-cases (n == 0)) [
  | inl p ↦ (digits, rw p refl, ap (λ v. decimal v digits) (sym ((==_iff n 0).0 p)))
  | inr p ↦
      let (t, e, d) =
        itoa_loop-decimal i (n / 10) ((n % 10 + 48) ∷ digits)
          (shorter n (10 ^ i) (omega (arith, h, pow-succ' 10 i))) in
      (t, rw p e, d ∙ ap (λ v. decimal v digits) (last_digit n))
]

itoa-decimal : (n : ℕ) → n < 2 ^ 64 → (t : Text) × (itoa n ≡ some t) × (decimal 0 t ≡ n)
unfolding itoa decimal
itoa-decimal n h = elim (Bool-cases (n == 0)) [
  | inl p ↦ (48 ∷ [], rw p refl, sym ((==_iff n 0).0 p))
  | inr p ↦ let (t, e, d) = itoa_loop-decimal 20 n [] (omega (arith, h)) in (t, rw p e, d)
]

-- The next `n` ids of a generator.
unfoldable pub generate_all : ℕ → ℕ → List (Option Text)
generate_all zero counter = []
generate_all (suc n) counter = let (id, next) = generate_numeric counter in id ∷ generate_all n next

-- The ids are no panics and denote the numbers after `counter`, one after another.
abbrev pub Counts : ℕ → List (Option Text) → Type 0
Counts counter [] = Unit {0}
Counts counter (none ∷ ids) = ⊥
Counts counter (some id ∷ ids) = (decimal 0 id ≡ counter + 1) × Counts (counter + 1) ids

-- As long as the counter of `NumericIDGenerator` stays below 2^64, the next ids that it generates,
-- without a panic, are decimal texts of the numbers after the counter, one after another.
pub generate_all-Counts :
    (n counter : ℕ) → counter + n < 2 ^ 64 → Counts counter (generate_all n counter)
unfolding generate_all generate_numeric
generate_all-Counts zero counter h = tt
generate_all-Counts (suc n) counter h =
    let small : counter + 1 < 2 ^ 64 = omega (arith, h) in
    let (t, e, d) = itoa-decimal (counter + 1) small in
    rw (mod-eq_of_lt small, e) (d, generate_all-Counts n (counter + 1) (omega (arith, h)))
