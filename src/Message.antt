-- ===== src/Message.antt =====
-- pkg/types/message.go: `PortaskMessage` and `MessageBatch`. A text or byte slice is the list of its
-- bytes, a map an association list, an int64 (a time too) its 64 bits, and a uint8 is kept below 256. The id that `generateULID` gives and the clock are arguments.
pub mod Size
pub mod Expiry
pub mod Pooled
mod Tests
use portask.Prelude.{
  ℕ, ◌+◌, ◌%◌, ◌^◌, Bool, true, false, Option, none, some, List, [], ◌∷◌, ◌++◌, ltb, ◌==◌,
  if◌then◌else◌, length,
}
use portask.Prelude.Maps.{nat_eq, list_eq, find, put}

abbrev pub Text : Type 0
Text = List ℕ

-- `MessagePriority` is any uint8; these are its named values.
abbrev pub priority_low : ℕ
priority_low = 1

abbrev pub priority_normal : ℕ
priority_normal = 5

abbrev pub priority_high : ℕ
priority_high = 9

pub data MessageStatus : Type 0 where
  pending processing acknowledged failed expired : MessageStatus

-- A value of a header, by the types that `estimateValueSize` tells apart.
pub data HeaderValue : Type 0 where
  text bytes : List ℕ → HeaderValue
  integer unsigned : ℕ → HeaderValue
  float32 float64 other : HeaderValue
  boolean : Bool → HeaderValue

-- The fields of `_internal`.
pub record Internal : Type 0 where
  pub received_at : Option ℕ
  pub processed_at : Option ℕ
  pub acknowledged_at : Option ℕ
  pub size : ℕ
  pub compressed_size : ℕ
  pub serialized_data : Option (List ℕ)

pub record PortaskMessage : Type 0 where
  pub id : Text
  pub topic : Text
  pub payload : List ℕ
  pub timestamp : ℕ
  pub headers : List (Text × HeaderValue)
  pub metadata : List (Text × Text)
  pub priority : ℕ
  pub status : MessageStatus
  pub partition : ℕ
  pub key : Text
  pub partition_key : Text
  pub reply_to : Text
  pub expires_at : ℕ
  pub ttl : ℕ
  pub offset : ℕ
  pub attempts : ℕ
  pub max_retry : ℕ
  pub correlation_id : Text
  pub trace_id : Text
  pub internal : Internal

abbrev pub no_internal : Internal
no_internal = record {
  received_at = none;
  processed_at = none;
  acknowledged_at = none;
  size = 0;
  compressed_size = 0;
  serialized_data = none;
}

-- 24 hours in nanoseconds.
abbrev pub day : ℕ
day = 86400000000000

-- `NewMessage`
unfoldable pub new_message : Text → ℕ → Text → List ℕ → PortaskMessage
new_message id now topic payload = record {
  id = id;
  topic = topic;
  payload = payload;
  timestamp = now;
  headers = [];
  metadata = [];
  priority = priority_normal;
  status = pending;
  partition = 0;
  key = [];
  partition_key = [];
  reply_to = [];
  expires_at = 0;
  ttl = day;
  offset = 0;
  attempts = 0;
  max_retry = 0;
  correlation_id = [];
  trace_id = [];
  internal = no_internal;
}

-- The setters.
unfoldable pub with_header : Text → HeaderValue → PortaskMessage → PortaskMessage
with_header k v m = record m { headers = put m.headers k v }

unfoldable pub with_priority : ℕ → PortaskMessage → PortaskMessage
with_priority p m = record m { priority = p }

-- `WithTTL`, of any int64: the sum wraps around.
unfoldable pub with_ttl : ℕ → PortaskMessage → PortaskMessage
with_ttl ttl m = record m { ttl = ttl; expires_at = (m.timestamp + ttl) % 2 ^ 64 }

unfoldable pub with_partition_key : Text → PortaskMessage → PortaskMessage
with_partition_key k m = record m { partition_key = k }

unfoldable pub with_reply_to : Text → PortaskMessage → PortaskMessage
with_reply_to topic m = record m { reply_to = topic }

unfoldable pub with_correlation_id : Text → PortaskMessage → PortaskMessage
with_correlation_id id m = record m { correlation_id = id }

unfoldable pub with_trace_id : Text → PortaskMessage → PortaskMessage
with_trace_id id m = record m { trace_id = id }

-- `Reset`: the assignments in their order.
unfoldable pub reset : PortaskMessage → PortaskMessage
reset m = record m {
  id = [];
  topic = [];
  payload = [];
  timestamp = 0;
  headers = [];
  metadata = [];
  priority = priority_normal;
  status = pending;
  partition = 0;
  key = [];
  partition_key = [];
  reply_to = [];
  expires_at = 0;
  ttl = 0;
  offset = 0;
  attempts = 0;
  max_retry = 0;
  correlation_id = [];
  trace_id = [];
  internal = record m.internal {
    received_at = none;
    processed_at = none;
    acknowledged_at = none;
    size = 0;
    compressed_size = 0;
    serialized_data = none;
  };
}

-- Whether an int64 is less than another.
unfoldable pub int64_lt : ℕ → ℕ → Bool
int64_lt a b = ltb ((a + 2 ^ 63) % 2 ^ 64) ((b + 2 ^ 63) % 2 ^ 64)

-- `IsExpired` at the time `now`.
unfoldable pub is_expired : ℕ → PortaskMessage → Bool
is_expired now m = if m.expires_at == 0 then false else int64_lt m.expires_at now

-- `CanRetry` and `IncrementAttempts`.
unfoldable pub can_retry : PortaskMessage → Bool
can_retry m = ltb m.attempts m.max_retry

unfoldable pub increment_attempts : PortaskMessage → PortaskMessage
increment_attempts m = record m { attempts = (m.attempts + 1) % 256 }

-- `GetHeader` and `GetStringHeader`.
unfoldable pub get_header : Text → PortaskMessage → Option HeaderValue
get_header k m = find m.headers k

unfoldable pub get_string_header : Text → PortaskMessage → Option Text
get_string_header k m = elim (get_header k m) [ some (text s) ↦ some s | _ ↦ none ]

unfoldable pub estimate_value_size : HeaderValue → ℕ
estimate_value_size (text s) = length s
estimate_value_size (bytes s) = length s
estimate_value_size (integer n) = 8
estimate_value_size (unsigned n) = 8
estimate_value_size float32 = 4
estimate_value_size float64 = 8
estimate_value_size other = 16
estimate_value_size (boolean b) = 1

unfoldable pub headers_size : List (Text × HeaderValue) → ℕ
headers_size [] = 0
headers_size ((k, v) ∷ headers) = length k + estimate_value_size v + headers_size headers

-- The estimate of `GetSize`.
unfoldable pub estimated_size : PortaskMessage → ℕ
estimated_size m =
    length m.payload
    + length m.id
    + length m.topic
    + length m.partition_key
    + length m.reply_to
    + length m.correlation_id
    + length m.trace_id
    + headers_size m.headers
    + 128

-- `GetSize`, which keeps its estimate in the message.
unfoldable pub get_size : PortaskMessage → ℕ × PortaskMessage
get_size m =
    if ltb 0 m.internal.size
    then (m.internal.size, m)
    else (estimated_size m, record m { internal = record m.internal { size = estimated_size m } })

-- `markReceived`, `markProcessed`, `markAcknowledged` and `markFailed`.
unfoldable pub mark_received : ℕ → PortaskMessage → PortaskMessage
mark_received now m = record m { internal = record m.internal { received_at = some now } }

unfoldable pub mark_processed : ℕ → PortaskMessage → PortaskMessage
mark_processed now m = record m {
  internal = record m.internal { processed_at = some now };
  status = processing;
}

unfoldable pub mark_acknowledged : ℕ → PortaskMessage → PortaskMessage
mark_acknowledged now m = record m {
  internal = record m.internal { acknowledged_at = some now };
  status = acknowledged;
}

unfoldable pub mark_failed : PortaskMessage → PortaskMessage
mark_failed m = record m { status = failed }

-- `MessageBatch`, with its `TotalSize`.
pub record MessageBatch : Type 0 where
  pub messages : List PortaskMessage
  pub batch_id : Text
  pub created_at : ℕ
  pub total_size : ℕ

-- `NewMessageBatch`
unfoldable pub new_message_batch : Text → ℕ → List PortaskMessage → MessageBatch
new_message_batch id now messages = record {
  messages = messages;
  batch_id = id;
  created_at = now;
  total_size = 0;
}

-- `Add`: the batch holds the pointer, so it sees the size that `GetSize` keeps.
unfoldable pub add : PortaskMessage → MessageBatch → MessageBatch
add m b =
    let (n, m') = get_size m in
    record b { messages = b.messages ++ m' ∷ []; total_size = b.total_size + n }

-- The loop of `GetTotalSize`.
unfoldable pub size_all : List PortaskMessage → ℕ × List PortaskMessage
size_all [] = (0, [])
size_all (m ∷ messages) =
    let (n, m') = get_size m in let (total, rest) = size_all messages in (n + total, m' ∷ rest)

-- `GetTotalSize`
unfoldable pub get_total_size : MessageBatch → ℕ × MessageBatch
get_total_size b =
    if ltb 0 b.total_size
    then (b.total_size, b)
    else (let (total, messages) = size_all b.messages in
        (total, record b { messages = messages; total_size = total }))
