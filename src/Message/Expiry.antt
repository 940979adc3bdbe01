-- ===== src/Message/Expiry.antt =====
-- When a message expires (`NewMessage`, the setters and `IsExpired` of pkg/types/message.go).
use portask.Prelude.{
  ℕ, ◌+◌, ◌-◌, ◌%◌, ◌^◌, ◌<◌, ◌≤◌, ◌≡◌, ◌≢◌, ◌⊎◌, inl, inr, if◌then◌else◌, refl, ap, Bool, false,
  Option, none, some, List, [], ◌∷◌, ltb, arith,
}
use native.Mathlib.Decide.{dec_lt}
use portask.Message.{
  Text, HeaderValue, PortaskMessage, new_message, with_header, with_priority, with_ttl,
  with_partition_key, with_reply_to, with_correlation_id, with_trace_id, is_expired, int64_lt,
}

pub data Setter : Type 0 where
  header : Text → HeaderValue → Setter
  priority time_to_live : ℕ → Setter
  partition_key reply_to correlation_id trace_id : Text → Setter

pub apply : PortaskMessage → Setter → PortaskMessage
apply m (header k v) = with_header k v m
apply m (priority p) = with_priority p m
apply m (time_to_live t) = with_ttl t m
apply m (partition_key k) = with_partition_key k m
apply m (reply_to topic) = with_reply_to topic m
apply m (correlation_id id) = with_correlation_id id m
apply m (trace_id id) = with_trace_id id m

pub apply_all : PortaskMessage → List Setter → PortaskMessage
apply_all m [] = m
apply_all m (s ∷ setters) = apply_all (apply m s) setters

-- The time to live that was set last.
unfoldable pub next_ttl : Option ℕ → Setter → Option ℕ
next_ttl o (time_to_live t) = some t
next_ttl o s = o

unfoldable pub last_ttl : Option ℕ → List Setter → Option ℕ
last_ttl o [] = o
last_ttl o (s ∷ setters) = last_ttl (next_ttl o s) setters

-- Whether a time to live, from `now` on, has passed at a time; one of 2^63 and more is negative.
pub deadline_passed : ℕ → ℕ → Option ℕ → Bool
deadline_passed now at none = false
deadline_passed now at (some t) =
    if ltb t (2 ^ 63) then ltb (now + t) at else ltb now (at + (2 ^ 64 - t))

-- The time to live is an int64, and its end is one too, and is not the time 0.
abbrev pub InRange : ℕ → Option ℕ → Type 0
InRange now none = Unit
InRange now (some t) = (t < 2 ^ 64) × ((now + t < 2 ^ 63) ⊎ (2 ^ 63 ≤ t)) × (now + t ≢ 2 ^ 64)

-- The deadline of a message that was made at `now`, with `o` for the time to live that was set.
abbrev Deadline : ℕ → Option ℕ → PortaskMessage → Type 0
Deadline now none m = (m.timestamp ≡ now) × (m.expires_at ≡ 0)
Deadline now (some t) m = (m.timestamp ≡ now) × (m.expires_at ≡ (now + t) % 2 ^ 64)

Deadline-apply :
    (now : ℕ) (o : Option ℕ) (m : PortaskMessage) (s : Setter)
    → Deadline now o m
    → Deadline now (next_ttl o s) (apply m s)
unfolding apply next_ttl with_header with_priority with_ttl with_partition_key with_reply_to
    with_correlation_id with_trace_id
Deadline-apply now none m (time_to_live t) d = (d.0, ap (λ n. (n + t) % 2 ^ 64) d.0)
Deadline-apply now (some u) m (time_to_live t) d = (d.0, ap (λ n. (n + t) % 2 ^ 64) d.0)
Deadline-apply now none m s d = d
Deadline-apply now (some u) m s d = d

Deadline-apply_all :
    (now : ℕ) (o : Option ℕ) (m : PortaskMessage) (setters : List Setter)
    → Deadline now o m
    → Deadline now (last_ttl o setters) (apply_all m setters)
unfolding apply_all last_ttl
Deadline-apply_all now o m [] d = d
Deadline-apply_all now o m (s ∷ setters) d =
    Deadline-apply_all now (next_ttl o s) (apply m s) setters (Deadline-apply now o m s d)

is_expired-Deadline :
    (now at : ℕ) (o : Option ℕ) (m : PortaskMessage)
    → 0 < now
    → now < 2 ^ 63
    → at < 2 ^ 63
    → InRange now o
    → Deadline now o m
    → is_expired at m ≡ deadline_passed now at o
unfolding is_expired deadline_passed int64_lt
is_expired-Deadline now at none m h l a r d = ground arith
is_expired-Deadline now at (some t) m h l a (small, inl sum, z) (_, e) =
    let exact : m.expires_at ≡ now + t = omega (arith, e, sum) in ground (arith, exact)
is_expired-Deadline now at (some t) m h l a (small, inr neg, z) (_, e) =
    elim (dec_lt (now + t) (2 ^ 64)) [
      | yes lt ↦ let exact : m.expires_at ≡ now + t = omega (arith, e, lt) in ground (arith, exact)
      | no ge ↦
          let exact : m.expires_at + 2 ^ 64 ≡ now + t = omega (arith, e, ge) in
          ground (arith, exact)
    ]

-- A message of `NewMessage`, whatever setters are applied to it, is expired exactly when a time to
-- live was set with `WithTTL` and the last one, which may be negative, has passed since the message
-- was made; the 24 hours that `NewMessage` gives it as its TTL never make it expire. The clock is
-- positive when the message is made and not negative when it is asked, and the sum of that time and
-- the last time to live fits an int64 and is not 0.
pub is_expired-apply_all :
    (id topic : Text) (payload : List ℕ) (now at : ℕ) (setters : List Setter)
    → 0 < now
    → now < 2 ^ 63
    → at < 2 ^ 63
    → InRange now (last_ttl none setters)
    → is_expired at (apply_all (new_message id now topic payload) setters)
      ≡ deadline_passed now at (last_ttl none setters)
unfolding new_message
is_expired-apply_all id topic payload now at setters h l a r =
    is_expired-Deadline now at (last_ttl none setters)
      (apply_all (new_message id now topic payload) setters) h l a r
      (Deadline-apply_all now none (new_message id now topic payload) setters (refl, refl))
