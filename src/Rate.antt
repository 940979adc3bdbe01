-- ===== src/Rate.antt =====
-- pkg/auth/ratelimiter.go: a token bucket for each client. Times are nanoseconds, the rate is not
-- negative, and whole seconds are a floor, as the conversion of `elapsed.Seconds()` is while the
-- bucket is younger than the cleanup lets it become.
use portask.Prelude.{
  ℕ, ◌+◌, ◌-◌, ◌*◌, ◌/◌, Bool, true, false, if◌then◌else◌, ltb, ◌==◌, Option, none, some, List, [],
  ◌∷◌,
}
use portask.Prelude.Maps.{nat_eq, list_eq, find, put}
pub mod Bound
mod Tests

pub record Bucket : Type 0 where
  pub tokens : ℕ
  pub last_refill : ℕ

pub record RateLimiter : Type 0 where
  pub requests_per_second : ℕ
  pub buckets : List (List ℕ × Bucket)

-- `NewRateLimiter`
unfoldable pub new_rate_limiter : ℕ → RateLimiter
new_rate_limiter rate = record { requests_per_second = rate; buckets = [] }

unfoldable pub tokens_to_add : ℕ → ℕ → Bucket → ℕ
tokens_to_add rate now b = (now - b.last_refill) / 1000000000 * rate

-- The refill in `consumeToken`.
unfoldable pub refill : ℕ → ℕ → Bucket → Bucket
refill rate now b =
    let add = tokens_to_add rate now b in
    if ltb 0 add
    then record {
      tokens = if ltb rate (b.tokens + add) then rate else b.tokens + add;
      last_refill = now;
    }
    else b

unfoldable pub take_token : Bucket → Bool × Bucket
take_token b = if ltb 0 b.tokens then (true, record b { tokens = b.tokens - 1 }) else (false, b)

-- `consumeToken`
unfoldable pub consume_token : ℕ → ℕ → Bucket → Bool × Bucket
consume_token rate now b = take_token (refill rate now b)

-- The client's bucket, a full one for a new client.
abbrev pub or_full : ℕ → ℕ → Option Bucket → Bucket
or_full rate now none = record { tokens = rate; last_refill = now }
or_full rate now (some b) = b

unfoldable pub bucket_for : ℕ → List ℕ → RateLimiter → Bucket
bucket_for now client rl = or_full rl.requests_per_second now (find rl.buckets client)

-- `Allow`
unfoldable pub allow : ℕ → List ℕ → RateLimiter → Bool × RateLimiter
allow now client rl =
    let (allowed, b) = consume_token rl.requests_per_second now (bucket_for now client rl) in
    (allowed, record rl { buckets = put rl.buckets client b })

-- One round of `cleanup`, with `cutoff` for five minutes before it.
unfoldable pub cleanup_round : ℕ → List (List ℕ × Bucket) → List (List ℕ × Bucket)
cleanup_round cutoff [] = []
cleanup_round cutoff ((client, b) ∷ buckets) =
    let rest = cleanup_round cutoff buckets in
    if ltb b.last_refill cutoff then rest else (client, b) ∷ rest
