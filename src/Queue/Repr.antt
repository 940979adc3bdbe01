-- ===== src/Queue/Repr.antt =====
-- When a `LockFreeQueue` holds a list of messages, oldest first: the messages sit at the positions
-- from `dequeue_pos` up to `enqueue_pos`, and the other nodes wait for the next lap.
use native.Mathlib.Nat.{mod-eq_of_lt, mod-lt, mod-eq-sub-mod, mod-add-mod}
use native.Mathlib.Decide.{dec_lt}
use mathlib.Core.Option.{get_or}
use portask.Prelude.{
  ℕ, zero, suc, ◌+◌, ◌-◌, ◌%◌, ◌^◌, ◌≤◌, ◌<◌, ◌≡◌, ◌≢◌, refl, ap, ◌∙◌, sym, ◌⊎◌, inl, inr, none,
  some, List, [], ◌∷◌, ◌++◌, arith, length, get_elem?,
}
use portask.Prelude.Bits.{bit_and, bit_and_low}
use portask.Queue.{LockFreeQueue, level, behind, ahead, gap}

-- The shape of the buffer: a power of two of at least two nodes, with its mask.
pub record IsShaped {A : Type 0} (q : LockFreeQueue A) (k : ℕ) : Type 0 where
  pub cap_eq : q.capacity ≡ 2 ^ k
  pub mask_eq : q.mask ≡ 2 ^ k - 1
  pub nodes : length q.buffer ≡ 2 ^ k
  pub small : 2 ^ k ≤ 2 ^ 62

pub record Holds {A : Type 0} (q : LockFreeQueue A) (k : ℕ) (xs : List A) : Type 0 where
  pub shaped : IsShaped q k
  pub at_least_two : 2 ≤ 2 ^ k
  pub counted : q.enqueue_pos ≡ q.dequeue_pos + length xs
  pub fits : length xs ≤ 2 ^ k
  -- No position has wrapped yet: fewer than 2^62 messages have been enqueued.
  pub early : q.enqueue_pos < 2 ^ 62
  pub stored :
      (i : ℕ) (x : A)
      → get_elem? xs i ≡ some x
      → get_elem? q.buffer ((q.dequeue_pos + i) % 2 ^ k)
        ≡ some (record { sequence = q.dequeue_pos + i + 1; item = some x })
  pub vacant :
      (p : ℕ)
      → q.enqueue_pos ≤ p
      → p < q.dequeue_pos + 2 ^ k
      → get_elem? q.buffer (p % 2 ^ k) ≡ some (record { sequence = p; item = none })

pub node_at-IsShaped :
    {A : Type 0} {q : LockFreeQueue A} {k : ℕ}
    → IsShaped q k
    → (pos : ℕ) → bit_and pos q.mask ≡ pos % 2 ^ k
node_at-IsShaped {k = k} s pos = ap (bit_and pos) s.mask_eq ∙ bit_and_low k pos

-- Two different positions less than a lap apart are in different nodes.
pub mod_ne : (a d c : ℕ) → 0 < d → d < c → (a + d) % c ≢ a % c
mod_ne a d c pd dc e = elim (dec_lt (a % c + d) c) [
  | yes h ↦ omega (arith, e, mod-add-mod a c d, mod-eq_of_lt h)
  | no h ↦ omega (
    arith,
    e,
    mod-add-mod a c d,
    mod-eq-sub-mod {n = a % c + d} {m = c} (omega arith),
    mod-eq_of_lt {n = a % c + d - c} {m = c} (omega (arith, mod-lt a {m = c} (omega arith))),
    mod-lt a {m = c} (omega arith),
  )
]

-- What stands in a list with one more item at its end.
pub get_elem?-snoc :
    {A : Type 0} (xs : List A) (x : A) (i : ℕ) (y : A)
    → get_elem? (xs ++ x ∷ []) i ≡ some y
    → ((get_elem? xs i ≡ some y) × (i < length xs)) ⊎ ((i ≡ length xs) × (y ≡ x))
get_elem?-snoc [] x zero y h = inr (refl, ap (λ o. get_or o x) (sym h))
get_elem?-snoc [] x (suc i) y h = absurd (cc h)
get_elem?-snoc (a ∷ xs) x zero y h = inl (h, omega arith)
get_elem?-snoc (a ∷ xs) x (suc i) y h = elim (get_elem?-snoc xs x i y h) [
  | inl (p, q) ↦ inl (p, omega arith)
  | inr (p, q) ↦ inr (ap suc p, q)
]

pub get_elem?-lt {ℓ} :
    {A : Type ℓ} (xs : List A) (i : ℕ) {y : A} → get_elem? xs i ≡ some y → i < length xs
get_elem?-lt [] i h = absurd (cc h)
get_elem?-lt (x ∷ xs) zero h = omega arith
get_elem?-lt (x ∷ xs) (suc i) h = omega (arith, get_elem?-lt xs i h)

-- The comparison of `Enqueue` and `Dequeue`, for positions that have not wrapped.
pub gap-level : (p : ℕ) → p < 2 ^ 63 → gap p p ≡ level
unfolding gap
gap-level p h = ground arith

pub gap-behind : (s p : ℕ) → s < p → p < 2 ^ 63 → gap s p ≡ behind
unfolding gap
gap-behind s p h l = ground arith

pub gap-ahead : (s p : ℕ) → p < s → s < 2 ^ 63 → gap s p ≡ ahead
unfolding gap
gap-ahead s p h l = ground arith
