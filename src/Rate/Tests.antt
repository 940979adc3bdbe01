-- ===== src/Rate/Tests.antt =====
-- Runs of pkg/auth/ratelimiter.go at concrete inputs, and the theorem at them.
use portask.Prelude.{ℕ, ◌+◌, ◌*◌, ◌/◌, ◌≤◌, ◌≡◌, refl, List, [], ◌∷◌}
use portask.Rate.{
  new_rate_limiter, allow, consume_token, take_token, refill, tokens_to_add, bucket_for,
}
use portask.Prelude.Maps.{find, put}
use portask.Rate.Bound.{allowed_for, total_delay, allow_bound}

-- Three requests at once, another client's, and one after a second.
abbrev requests : List (ℕ × List ℕ)
requests = (0, 97 ∷ []) ∷ (0, 97 ∷ []) ∷ (0, 97 ∷ []) ∷ (0, 98 ∷ []) ∷ (1000000000, 97 ∷ []) ∷ []

requests-allowed : allowed_for (97 ∷ []) 5 requests (new_rate_limiter 2) ≡ 3
unfolding allowed_for allow consume_token take_token refill tokens_to_add bucket_for find
    new_rate_limiter put
requests-allowed = refl

allow_bound_example :
    allowed_for (97 ∷ []) 5 requests (new_rate_limiter 2)
    ≤ 2 + total_delay requests / 1000000000 * 2
allow_bound_example = allow_bound 2 5 (97 ∷ []) requests
