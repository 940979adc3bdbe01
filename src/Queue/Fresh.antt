-- ===== src/Queue/Fresh.antt =====
-- `NewLockFreeQueue` (pkg/queue/lockfree.go): the capacity it rounds to, and the queue it returns.
use native.Mathlib.Nat.{pow-suc, mod-eq_of_lt}
use native.Mathlib.Decide.{dec_lt}
use portask.Prelude.{
  ℕ, zero, suc, ◌+◌, ◌-◌, ◌/◌, ◌%◌, ◌^◌, ◌≤◌, ◌<◌, ◌≡◌, ◌≢◌, refl, ap, ◌∙◌, inl, inr, some, none,
  List, [], arith, length, get_elem?, ◌==◌, Bool-cases,
}
use portask.Prelude.Bits.{bit_and, bit_and_halves}
use portask.Queue.{
  LockFreeQueue, DropPolicy, drop_oldest, round_capacity, fresh_nodes, new_lock_free_queue,
}
use portask.Queue.Power.{IsNextPower, IsNextPower-intro, minimal, next_power_of_2-IsNextPower}
use portask.Queue.Repr.{Holds}
use portask.Queue.Refine.{calls, calls_refine}
use portask.Queue.Spec.{Call, run}

bit_and_self : (m n : ℕ) → n ≤ m → bit_and n n ≡ n
bit_and_self zero zero h = refl
bit_and_self zero (suc n) h = absurd (omega arith)
bit_and_self (suc m) zero h = refl
bit_and_self (suc m) (suc n) h =
    omega (arith, bit_and_halves (suc n) (suc n), bit_and_self m (suc n / 2) (omega arith))

-- A number that shares no digit with its predecessor is a power of two.
power_of_bit_and : (m n : ℕ) → n ≤ m → 0 < n → bit_and n (n - 1) ≡ 0 → (k : ℕ) × (n ≡ 2 ^ k)
power_of_bit_and zero n h p e = absurd (omega arith)
power_of_bit_and (suc m) n h p e = elim (dec_lt 1 n) [
  | no one ↦ (0, omega arith)
  | yes big ↦ elim (dec_lt 0 (n % 2)) [
    | yes odd ↦ absurd (
        omega (
          arith,
          e,
          bit_and_halves n (n - 1),
          ap (bit_and (n / 2)) (same odd),
          bit_and_self n (n / 2) (omega arith),
        ))
    | no even ↦
        let (k, g) =
          power_of_bit_and m (n / 2) (omega arith) (omega arith) (
            omega
              (arith, e, bit_and_halves n (n - 1), ap (bit_and (n / 2)) (less (omega arith)))) in
        (suc k, omega (arith, g, pow-suc 2 k))
  ]
]
  where
    same : 0 < n % 2 → (n - 1) / 2 ≡ n / 2
    same h = omega arith

    less : n % 2 ≡ 0 → (n - 1) / 2 ≡ n / 2 - 1
    less h = omega arith

-- A capacity from 1 to 2^62 is rounded to the least power of two that is not smaller.
pub round_capacity-IsNextPower : (c : ℕ) → 0 < c → c ≤ 2 ^ 63 → IsNextPower c (round_capacity c)
unfolding round_capacity
round_capacity-IsNextPower c p h = elim (Bool-cases (bit_and c (c - 1) == 0)) [
  | inl e ↦
      let (k, g) = power_of_bit_and c c (omega arith) p (ground (arith, e)) in
      rw e (IsNextPower-intro c c k g (omega arith) (omega arith))
  | inr e ↦ rw e (next_power_of_2-IsNextPower c p h)
]

get_elem?-fresh_nodes :
    {A : Type 0} (n i j : ℕ)
    → j < n
    → get_elem? (fresh_nodes {A = A} i n) j ≡ some (record { sequence = i + j; item = none })
unfolding fresh_nodes
get_elem?-fresh_nodes zero i j h = absurd (omega arith)
get_elem?-fresh_nodes (suc n) i zero h =
    ap (λ (t : ℕ). some (record { sequence = t; item = none })) (omega arith)
get_elem?-fresh_nodes (suc n) i (suc j) h =
    get_elem?-fresh_nodes n (i + 1) j (omega arith)
    ∙ ap (λ (t : ℕ). some (record { sequence = t; item = none })) (omega arith)

length-fresh_nodes : (A : Type 0) (n i : ℕ) → length (fresh_nodes {A = A} i n) ≡ n
unfolding fresh_nodes
length-fresh_nodes A zero i = refl
length-fresh_nodes A (suc n) i = ap suc (length-fresh_nodes A n (i + 1))

pub fresh-Holds :
    (A : Type 0) (c k : ℕ) (policy : DropPolicy)
    → round_capacity c ≡ 2 ^ k
    → 2 ≤ 2 ^ k
    → 2 ^ k ≤ 2 ^ 62
    → Holds (new_lock_free_queue A c policy) k []
unfolding new_lock_free_queue
fresh-Holds A c k policy e two small = record {
  shaped = record {
    cap_eq = e;
    mask_eq = omega (arith, e);
    nodes = length-fresh_nodes A (round_capacity c) 0 ∙ e;
    small = small;
  };
  at_least_two = two;
  counted = omega arith;
  fits = omega arith;
  early = omega arith;
  stored = λ i x g. cc g;
  vacant = λ p lo hi.
      ap (get_elem? (fresh_nodes 0 (round_capacity c)))
        (mod-eq_of_lt {n = p} {m = 2 ^ k} (omega arith))
      ∙ get_elem?-fresh_nodes (round_capacity c) 0 p (omega (arith, e))
      ∙ ap (λ (t : ℕ). some (record { sequence = t; item = none })) (omega arith);
}

-- A queue made by `NewLockFreeQueue` with a capacity from 2 to 2^62 answers any calls as the empty
-- first-in first-out list does that is bounded by the least power of two that is not smaller than
-- the capacity, and no call panics, if the policy is not DropOldest and there are fewer than 2^62
-- calls.
pub new_refines :
    (A : Type 0) (c : ℕ) (policy : DropPolicy) (cs : List (Call A))
    → 2 ≤ c
    → c ≤ 2 ^ 62
    → policy ≢ drop_oldest
    → length cs < 2 ^ 62
    → IsNextPower c (round_capacity c)
      × (q : LockFreeQueue A) × (calls (new_lock_free_queue A c policy) cs
          ≡ some ((run (round_capacity c) [] cs).0, q))
new_refines A c policy cs lo hi pol few =
    let p = round_capacity-IsNextPower c (omega arith) (omega arith) in
    let h =
      fresh-Holds A c p.exponent policy p.power (omega (arith, p.power, p.enough))
        (omega (arith, p.power, minimal p 62 hi)) in
    let (q, r, _) = calls_refine cs h (policy_kept pol) (enough_room few) in (p, q, r_kept r)
  where
    policy_kept : policy ≢ drop_oldest → (new_lock_free_queue A c policy).drop_policy ≢ drop_oldest
    policy_kept n = unfold new_lock_free_queue in n

    enough_room :
        length cs < 2 ^ 62 → (new_lock_free_queue A c policy).enqueue_pos + length cs < 2 ^ 62
    enough_room n = unfold new_lock_free_queue in omega arith

    r_kept :
        {q : LockFreeQueue A}
        → calls (new_lock_free_queue A c policy) cs
          ≡ some ((run (new_lock_free_queue A c policy).capacity [] cs).0, q)
        → calls (new_lock_free_queue A c policy) cs ≡ some ((run (round_capacity c) [] cs).0, q)
    r_kept r = unfold new_lock_free_queue in r
