-- ===== src/Queue/Power.antt =====
-- `nextPowerOf2` (pkg/queue/lockfree.go): the shifts fill every digit below the highest one, so
-- the result is the least power of two that is not smaller.
use native.Mathlib.Nat.{
  pow-suc, mod-eq_of_lt, div-one, pow-le-pow_right, one-le-pow, div-div-eq-div-mul, mul_comm,
}
use native.Mathlib.Decide.{dec_lt}
use portask.Prelude.{
  ℕ, zero, suc, ◌+◌, ◌-◌, ◌*◌, ◌/◌, ◌%◌, ◌^◌, ◌≤◌, ◌<◌, max, ◌≡◌, ◌≢◌, refl, ap, sym, subst, ◌∙◌,
  ◌↔◌, arith,
}
use portask.Prelude.Bits.{mod-mul, bit_or, bit_or_halves}
use portask.Queue.{smear, smear_all, next_power_of_2}

-- Halving a smeared number is smearing the half, and the last digit is the greater of two.
smear-half : (k n : ℕ) → smear k n / 2 ≡ smear k (n / 2)
smear-half k n = omega (arith, bit_or_halves n (n / 2 ^ k), ap (bit_or (n / 2)) swap)
  where
    swap : n / 2 ^ k / 2 ≡ n / 2 / 2 ^ k
    swap =
        div-div-eq-div-mul n (2 ^ k) 2
        ∙ ap (λ (t : ℕ). n / t) (mul_comm (2 ^ k) 2)
        ∙ sym (div-div-eq-div-mul n 2 (2 ^ k))

smear-digit : (k n : ℕ) → smear k n % 2 ≡ max (n % 2) (n / 2 ^ k % 2)
smear-digit k n = omega (arith, bit_or_halves n (n / 2 ^ k))

-- `f` commutes with halving, and its last digit tells whether the number ends in `w` zeros.
record Fills (f : ℕ → ℕ) (w : ℕ) : Type 0 where
  half : (n : ℕ) → f n / 2 ≡ f (n / 2)
  digit : (n : ℕ) → (f n % 2 ≡ 0) ↔ (n % 2 ^ w ≡ 0)

shift_half : (f : ℕ → ℕ) → ((n : ℕ) → f n / 2 ≡ f (n / 2)) → (k n : ℕ) → f n / 2 ^ k ≡ f (n / 2 ^ k)
shift_half f h zero n = div-one (f n) ∙ ap f (sym (div-one n))
shift_half f h (suc k) n =
    ap (λ (t : ℕ). f n / t) (pow-suc 2 k)
    ∙ sym (div-div-eq-div-mul (f n) (2 ^ k) 2)
    ∙ ap (λ (t : ℕ). t / 2) (shift_half f h k n)
    ∙ h (n / 2 ^ k)
    ∙ ap f (div-div-eq-div-mul n (2 ^ k) 2 ∙ ap (λ (t : ℕ). n / t) (sym (pow-suc 2 k)))

-- A sum of products that is zero, for the two halves of a number's digits.
both_zero : (m h l : ℕ) → 0 < m → (h * m + l ≡ 0) ↔ ((l ≡ 0) × (h ≡ 0))
both_zero m h l p =
    (λ e. (omega arith, zero_of (omega arith)), λ e. omega (arith, ap (λ (t : ℕ). t * m) e.1))
  where
    zero_of : h * m ≡ 0 → h ≡ 0
    zero_of e = grind arith

module _ (f : ℕ → ℕ) (w : ℕ) (e : 2 ^ (w + w) ≡ 2 ^ w * 2 ^ w) (h : Fills f w) (n : ℕ) where
  digits_split : (n % 2 ^ (w + w) ≡ 0) ↔ ((n % 2 ^ w ≡ 0) × (n / 2 ^ w % 2 ^ w ≡ 0))
  digits_split =
      subst (λ (t : ℕ). (t ≡ 0) ↔ ((n % 2 ^ w ≡ 0) × (n / 2 ^ w % 2 ^ w ≡ 0)))
        (sym (
          ap (λ (t : ℕ). n % t) e
          ∙ mod-mul n (2 ^ w) (2 ^ w) (one-le-pow w 2 (omega arith))
              (one-le-pow w 2 (omega arith))))
        (both_zero (2 ^ w) (n / 2 ^ w % 2 ^ w) (n % 2 ^ w) (one-le-pow w 2 (omega arith)))

  smear_split : (smear w (f n) % 2 ≡ 0) ↔ ((f n % 2 ≡ 0) × (f (n / 2 ^ w) % 2 ≡ 0))
  smear_split = (λ z. omega (arith, z, last), λ z. omega (arith, z.0, z.1, last))
    where
      last : smear w (f n) % 2 ≡ max (f n % 2) (f (n / 2 ^ w) % 2)
      last = smear-digit w (f n) ∙ ap (λ (t : ℕ). max (f n % 2) (t % 2)) (shift_half f h.half w n)

-- One more shift doubles the reach.
Fills-smear :
    (f : ℕ → ℕ) (w : ℕ)
    → 2 ^ (w + w) ≡ 2 ^ w * 2 ^ w
    → Fills f w
    → Fills (λ n. smear w (f n)) (w + w)
Fills-smear f w e h = record {
  half = λ n. smear-half w (f n) ∙ ap (smear w) (h.half n);
  digit = λ n. (
    λ z. (digits_split f w e h n).1 (
      (h.digit n).0 ((smear_split f w e h n).0 z).0,
      (h.digit (n / 2 ^ w)).0 ((smear_split f w e h n).0 z).1,
    ),
    λ z. (smear_split f w e h n).1 (
      (h.digit n).1 ((digits_split f w e h n).0 z).0,
      (h.digit (n / 2 ^ w)).1 ((digits_split f w e h n).0 z).1,
    ),
  );
}

Fills-one : Fills (λ n. n) 1
Fills-one = record { half = λ n. refl; digit = λ n. (λ z. z, λ z. z) }

Fills-smear_all : Fills smear_all 64
unfolding smear_all
Fills-smear_all = Fills-smear _ 32 refl (
    Fills-smear _ 16 refl (
      Fills-smear _ 8 refl
        (Fills-smear _ 4 refl (Fills-smear _ 2 refl (Fills-smear _ 1 refl Fills-one)))))

-- The last digit of a smeared number is one, unless the number is 0.
smear_all-odd : (n : ℕ) → 0 < n → n < 2 ^ 64 → smear_all n % 2 ≡ 1
smear_all-odd n p h = grind (arith, nonzero)
  where
    nonzero : smear_all n % 2 ≢ 0
    nonzero z = omega (arith, (Fills-smear_all.digit n).0 z, mod-eq_of_lt h)

-- The highest digit of a number, found by halving.
smear_all_power :
    (m n : ℕ)
    → n < 2 ^ m
    → n < 2 ^ 64
    → 0 < n
    → (k : ℕ) × (smear_all n + 1 ≡ 2 ^ k) × (n < 2 ^ k) × (2 ^ k ≤ 2 * n)
smear_all_power zero n h l p = absurd (omega arith)
smear_all_power (suc m) n h l p = elim (dec_lt 1 n) [
  | yes big ↦
      let (k, e, lo, hi) =
        smear_all_power m (n / 2) (omega (arith, h, pow-suc 2 m)) (omega arith) (omega arith) in
      (
        suc k,
        omega (arith, e, Fills-smear_all.half n, smear_all-odd n p l, pow-suc 2 k),
        omega (arith, lo, pow-suc 2 k),
        omega (arith, hi, pow-suc 2 k),
      )
  | no small ↦ (1, ap (λ (t : ℕ). smear_all t + 1) (omega arith) ∙ one, omega arith, omega arith)
]
  where
    one : smear_all 1 + 1 ≡ 2
    one = unfold smear_all in refl

-- No smaller power of two is at least `n`.
least : (n k j : ℕ) → 2 ^ k < 2 * n → n ≤ 2 ^ j → 2 ^ k ≤ 2 ^ j
least n k j h g = elim (dec_lt j k) [
  | yes lt ↦
      absurd
        (omega (arith, pow-suc 2 j, pow-le-pow_right {n = 2} (omega arith) {i = suc j} {j = k} lt))
  | no ge ↦ pow-le-pow_right (omega arith) (omega arith)
]

-- `p` is the least power of two that is at least `n`: half of it is smaller than `n`.
pub record IsNextPower (n p : ℕ) : Type 0 where
  pub exponent : ℕ
  pub power : p ≡ 2 ^ exponent
  pub enough : n ≤ p
  pub tight : p < 2 * n

pub minimal : {n p : ℕ} → IsNextPower n p → (j : ℕ) → n ≤ 2 ^ j → p ≤ 2 ^ j
minimal {n} h j g =
    subst (λ t. t ≤ 2 ^ j) (sym h.power) (least n h.exponent j (omega (arith, h.power, h.tight)) g)

pub IsNextPower-intro : (n p k : ℕ) → p ≡ 2 ^ k → n ≤ p → p < 2 * n → IsNextPower n p
IsNextPower-intro n p k e lo hi = record { exponent = k; power = e; enough = lo; tight = hi }

-- For arguments from 1 to 2^63 `nextPowerOf2` returns the least power of two that is not smaller.
pub next_power_of_2-IsNextPower : (n : ℕ) → 0 < n → n ≤ 2 ^ 63 → IsNextPower n (next_power_of_2 n)
unfolding next_power_of_2
next_power_of_2-IsNextPower n p h = elim (dec_lt 1 n) [
  | yes big ↦
      let (k, e, lo, hi) = smear_all_power 64 (n - 1) (omega arith) (omega arith) (omega arith) in
      let value : next_power_of_2 n ≡ 2 ^ k = ground (arith, e, hi) in
      IsNextPower-intro n (next_power_of_2 n) k value (omega (arith, value, lo))
        (omega (arith, value, hi))
  | no small ↦ ap_one (omega arith)
]
  where
    ap_one : 1 ≡ n → IsNextPower n (next_power_of_2 n)
    ap_one e =
        subst (λ m. IsNextPower m (next_power_of_2 m)) e
          (unfold smear_all in IsNextPower-intro 1 1 0 refl (omega arith) (omega arith))
