-- ===== src/Message/Pooled.antt =====
-- What `Reset` (pkg/types/message.go) leaves of a message that goes back to its pool.
use portask.Prelude.{ℕ, ◌≡◌, refl, false, none}
use portask.Prelude.Maps.{nat_eq, list_eq, find}
use portask.Message.{
  headers_size, Text, PortaskMessage, reset, get_size, estimated_size, get_header, is_expired,
  can_retry,
}

-- `Reset` forgets everything: what two messages were before cannot be told after it, and the reset
-- message has no header, does not expire, allows no retry and has the size 128 of an empty message.
pub reset_forgets :
    (m m' : PortaskMessage) (k : Text) (now : ℕ)
    → (reset m ≡ reset m')
      × (get_header k (reset m) ≡ none)
      × (is_expired now (reset m) ≡ false)
      × (can_retry (reset m) ≡ false)
      × ((get_size (reset m)).0 ≡ 128)
unfolding reset get_header is_expired can_retry get_size estimated_size find headers_size
reset_forgets m m' k now = (refl, refl, refl, refl, refl)
