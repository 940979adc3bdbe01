-- ===== src/Rate/Bound.antt =====
-- How many requests of a client `Allow` (pkg/auth/ratelimiter.go) lets through.
use portask.Prelude.{
  ℕ, ◌+◌, ◌-◌, ◌*◌, ◌/◌, ◌≤◌, ◌≡◌, refl, sym, ap, ◌∙◌, subst, Bool, false, if◌then◌else◌, ltb,
  Bool-cases, inl, inr, Option, none, some, List, [], ◌∷◌, arith,
}
use portask.Prelude.Maps.{nat_eq, list_eq, beq_list, beq_list_iff, find, find-put, find-put_self}
use native.Mathlib.Nat.{mul-le-mul_right, add-mul}
use portask.Rate.{
  Bucket, RateLimiter, new_rate_limiter, tokens_to_add, refill, take_token, consume_token,
  bucket_for, or_full, allow,
}

-- With `n` requests let through since the time `start`, a bucket is within the rate.
pub record Within (rate start now n : ℕ) (b : Bucket) : Type 0 where
  pub spent : n + b.tokens ≤ rate + (b.last_refill - start) / 1000000000 * rate
  pub after_start : start ≤ b.last_refill
  pub before_now : b.last_refill ≤ now

abbrev pub count : Bool → ℕ
count b = if b then 1 else 0

seconds_add :
    (start t now : ℕ)
    → start ≤ t
    → t ≤ now
    → (t - start) / 1000000000 + (now - t) / 1000000000 ≤ (now - start) / 1000000000
seconds_add start t now h k = omega arith

spent_add :
    (n tokens p q r rate : ℕ)
    → n + tokens ≤ rate + p * rate
    → p + q ≤ r
    → n + (tokens + q * rate) ≤ rate + r * rate
spent_add n tokens p q r rate h k = omega (arith, mul-le-mul_right rate k, add-mul p q rate)

capped : (t rate n : ℕ) {bound : ℕ} → n + t ≤ bound → n + (if ltb rate t then rate else t) ≤ bound
capped t rate n h = ground arith

refill-Within :
    (rate start now n : ℕ) (b : Bucket)
    → Within rate start now n b
    → Within rate start now n (refill rate now b)
unfolding refill tokens_to_add
refill-Within rate start now n b w =
    elim (Bool-cases (ltb 0 ((now - b.last_refill) / 1000000000 * rate))) [
      | inr e ↦ rw e w
      | inl e ↦ rw e (record {
        spent = capped (b.tokens + tokens_to_add rate now b) rate n (
            spent_add n b.tokens ((b.last_refill - start) / 1000000000)
              ((now - b.last_refill) / 1000000000) ((now - start) / 1000000000) rate w.spent
              (seconds_add start b.last_refill now w.after_start w.before_now));
        after_start = omega (arith, w.after_start, w.before_now);
        before_now = omega arith;
      })
    ]

take_token-Within :
    (rate start now n : ℕ) (b : Bucket)
    → Within rate start now n b
    → Within rate start now (n + count (take_token b).0) (take_token b).1
unfolding take_token
take_token-Within rate start now n b w = elim (Bool-cases (ltb 0 b.tokens)) [
  | inl e ↦ rw e (record {
    spent = ground (arith, w.spent);
    after_start = w.after_start;
    before_now = w.before_now;
  })
  | inr e ↦ rw e (record {
    spent = ground (arith, w.spent);
    after_start = w.after_start;
    before_now = w.before_now;
  })
]

-- The client's bucket, if there is one, is within the rate.
abbrev pub BucketWithin : ℕ → ℕ → ℕ → ℕ → Option Bucket → Type 0
BucketWithin rate start now n none = n ≡ 0
BucketWithin rate start now n (some b) = Within rate start now n b

-- Requests: the time since the one before, and the client. With the clock at `now`, the number of
-- requests of `client` that are let through.
unfoldable pub allowed_for : List ℕ → ℕ → List (ℕ × List ℕ) → RateLimiter → ℕ
allowed_for client now [] rl = 0
allowed_for client now ((delay, c) ∷ requests) rl =
    let (ok, rl') = allow (now + delay) c rl in
    let rest = allowed_for client (now + delay) requests rl' in
    if beq_list c client then count ok + rest else rest

pub total_delay : List (ℕ × List ℕ) → ℕ
total_delay [] = 0
total_delay ((delay, c) ∷ requests) = delay + total_delay requests

later-Within :
    (rate start now delay n : ℕ) (o : Option Bucket)
    → BucketWithin rate start now n o
    → BucketWithin rate start (now + delay) n o
later-Within rate start now delay n none w = w
later-Within rate start now delay n (some b) w = record {
  spent = w.spent;
  after_start = w.after_start;
  before_now = omega (arith, w.before_now);
}

or_full-Within :
    (rate start now n : ℕ) (o : Option Bucket)
    → start ≤ now
    → BucketWithin rate start now n o
    → Within rate start now n (or_full rate now o)
or_full-Within rate start now n none h w = record {
  spent = omega (arith, w);
  after_start = h;
  before_now = omega arith;
}
or_full-Within rate start now n (some b) h w = w

-- What a request leaves of the buckets of the same client and of another.
allow_same-BucketWithin :
    (start now n : ℕ) (client : List ℕ) (rl : RateLimiter)
    → start ≤ now
    → BucketWithin rl.requests_per_second start now n (find rl.buckets client)
    → BucketWithin rl.requests_per_second start now
        (n + count (allow now client rl).0)
        (find (allow now client rl).1.buckets client)
unfolding allow consume_token bucket_for
allow_same-BucketWithin start now n client rl h w =
    let rate = rl.requests_per_second in
    let b = bucket_for now client rl in
    subst (BucketWithin rate start now (n + count (consume_token rate now b).0))
      (sym (find-put_self rl.buckets client (consume_token rate now b).1))
      (take_token-Within rate start now n (refill rate now b) (
        refill-Within rate start now n b
          (or_full-Within rate start now n (find rl.buckets client) h w)))

allow_other-BucketWithin :
    (start now n : ℕ) (c client : List ℕ) (rl : RateLimiter)
    → beq_list c client ≡ false
    → BucketWithin rl.requests_per_second start now n (find rl.buckets client)
    → BucketWithin rl.requests_per_second start now n (find (allow now c rl).1.buckets client)
unfolding allow
allow_other-BucketWithin start now n c client rl e w =
    let b = (consume_token rl.requests_per_second now (bucket_for now c rl)).1 in
    subst (BucketWithin rl.requests_per_second start now n)
      (sym (
        find-put rl.buckets c client b
        ∙ ap (λ same. if same then some b else find rl.buckets client) e))
      w

within_rate :
    (rate start now n : ℕ) (o : Option Bucket)
    → BucketWithin rate start now n o
    → n ≤ rate + (now - start) / 1000000000 * rate
within_rate rate start now n none w = omega (arith, w)
within_rate rate start now n (some b) w = omega (
  arith,
  w.spent,
  mul-le-mul_right {m = (b.last_refill - start) / 1000000000} {n = (now - start) / 1000000000} rate
      (omega (arith, w.before_now)),
)

regroup :
    (rate start n rest x y : ℕ)
    → x ≡ y
    → n + rest ≤ rate + (x - start) / 1000000000 * rate
    → n + rest ≤ rate + (y - start) / 1000000000 * rate
regroup rate start n rest x y e h =
    subst (λ z. n + rest ≤ rate + (z - start) / 1000000000 * rate) e h

regroup_sum :
    (rate start n k rest x y : ℕ)
    → x ≡ y
    → n + k + rest ≤ rate + (x - start) / 1000000000 * rate
    → n + (k + rest) ≤ rate + (y - start) / 1000000000 * rate
regroup_sum rate start n k rest x y e h =
    subst (λ z. n + (k + rest) ≤ rate + (z - start) / 1000000000 * rate) e (omega arith)

allowed_for-rate :
    (start now n : ℕ) (client : List ℕ) (requests : List (ℕ × List ℕ)) (rl : RateLimiter)
    → start ≤ now
    → BucketWithin rl.requests_per_second start now n (find rl.buckets client)
    → n + allowed_for client now requests rl
      ≤ rl.requests_per_second
        + (now + total_delay requests - start) / 1000000000 * rl.requests_per_second
unfolding allowed_for total_delay allow
allowed_for-rate start now n client [] rl h w =
    regroup rl.requests_per_second start n 0 now (now + 0) (omega arith)
      (omega (arith, within_rate rl.requests_per_second start now n (find rl.buckets client) w))
allowed_for-rate start now n client ((delay, c) ∷ requests) rl h w =
    elim (Bool-cases (beq_list c client)) [
      | inl e ↦
          let now' = now + delay in
          let later =
            later-Within rl.requests_per_second start now delay n (find rl.buckets client) w in
          let rest =
            allowed_for-rate start now' (n + count (allow now' c rl).0) client requests
              (allow now' c rl).1 (omega arith)
              (subst
                (λ k.
                  BucketWithin rl.requests_per_second start now' (n + count (allow now' k rl).0)
                    (find (allow now' k rl).1.buckets client))
                (sym ((beq_list_iff c client).0 e))
                (allow_same-BucketWithin start now' n client rl (omega arith) later)) in
          rw e (
            regroup_sum rl.requests_per_second start n (count (allow now' c rl).0)
              (allowed_for client now' requests (allow now' c rl).1) (now' + total_delay requests)
              (now + (delay + total_delay requests)) (omega arith) rest)
      | inr e ↦
          let now' = now + delay in
          let later =
            later-Within rl.requests_per_second start now delay n (find rl.buckets client) w in
          rw e (
            regroup rl.requests_per_second start n
              (allowed_for client now' requests (allow now' c rl).1) (now' + total_delay requests)
              (now + (delay + total_delay requests)) (omega arith)
              (allowed_for-rate start now' n client requests (allow now' c rl).1 (omega arith)
                (allow_other-BucketWithin start now' n c client rl e later)))
    ]

time_passed : (start d : ℕ) → start + d - start ≡ d
time_passed start d = omega arith

-- Of any requests to a new `RateLimiter`, each a delay after the one before, `Allow` lets at most
-- `rate` through for each client, and `rate` more for every whole second that has passed, as long as
-- no cleanup runs.
pub allow_bound :
    (rate start : ℕ) (client : List ℕ) (requests : List (ℕ × List ℕ))
    → allowed_for client start requests (new_rate_limiter rate)
      ≤ rate + total_delay requests / 1000000000 * rate
unfolding new_rate_limiter find
allow_bound rate start client requests =
    subst
      (λ d.
        allowed_for client start requests (new_rate_limiter rate) ≤ rate + d / 1000000000 * rate)
      (time_passed start (total_delay requests))
      (omega (
        arith,
        allowed_for-rate start start 0 client requests (new_rate_limiter rate) (omega arith) refl,
      ))
