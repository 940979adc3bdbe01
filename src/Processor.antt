-- ===== src/Processor.antt =====
-- The work of `MessageProcessor` (pkg/processor/processor.go) on messages, with the compressors of
-- pkg/processor/metrics.go and the buffers of pkg/memory/pool.go. The queue, the workers and the
-- clock are left out: whether a task is taken and answered in time is an argument. So are the runes of
-- a text and `%d`. The checksum is left out, since nothing reads it. A message is never nil.
pub mod Results
mod Tests
use portask.Prelude.{
  ℕ, ◌+◌, ◌*◌, ◌%◌, ◌^◌, ◌==◌, Bool, true, false, if◌then◌else◌, ltb, none, List, [], ◌∷◌, ◌++◌,
  take, drop, length,
}
use portask.Message.{Text, HeaderValue, text, PortaskMessage, pending, no_internal}

-- `NewCompressor`; each other name than these three is `no_op`.
pub data Algorithm : Type 0 where
  zstd lz4 snappy no_op : Algorithm

-- `ProcessorConfig`, what of it tells how a message is processed.
pub record ProcessorConfig : Type 0 where
  pub enable_compression : Bool
  pub compression_algorithm : Algorithm
  pub enable_zero_copy : Bool

pub data ProcessError : Type 0 where
  backpressure_or_timeout empty_topic nil_value : ProcessError

pub data ProcessResult (A : Type 0) : Type 0 where
  success : A → ProcessResult A
  failure : ProcessError → ProcessResult A

-- A message, and whether its payload is nil.
abbrev pub Task : Type 0
Task = PortaskMessage × Bool

-- `Message` of pkg/memory/pool.go, which keeps only the texts among the headers.
pub record PoolMessage : Type 0 where
  pub id : ℕ
  pub topic : Text
  pub partition : ℕ
  pub offset : ℕ
  pub key : List ℕ
  pub value : List ℕ
  pub headers : List (Text × Text)
  pub timestamp : ℕ

-- What `Get` of the pool gives: a new message, or one after `Reset`.
unfoldable pub pool_message : PoolMessage
pool_message = record {
  id = 0;
  topic = [];
  partition = 0;
  offset = 0;
  key = [];
  value = [];
  headers = [];
  timestamp = 0;
}

-- `Get` of `BufferPool`: a buffer with room for `size` bytes, of length 0.
unfoldable pub get_buffer : ℕ → List ℕ
get_buffer size = []

-- `copy` of the language, into a slice.
unfoldable pub copied : List ℕ → List ℕ → List ℕ
copied dst src = take (length dst) src ++ drop (length src) dst

-- `hash`, from `h` on.
unfoldable pub hash : ℕ → List ℕ → ℕ
hash h [] = h
hash h (c ∷ cs) = hash ((h * 31 + c) % 2 ^ 64) cs

unfoldable pub text_headers : List (Text × HeaderValue) → List (Text × Text)
text_headers [] = []
text_headers ((k, text v) ∷ headers) = (k, v) ∷ text_headers headers
text_headers ((k, _) ∷ headers) = text_headers headers

unfoldable pub header_values : List (Text × Text) → List (Text × HeaderValue)
header_values [] = []
header_values ((k, v) ∷ headers) = (k, text v) ∷ header_values headers

-- `Compress`: all are placeholders, and copy the data at most.
unfoldable pub compress : Algorithm → List ℕ → List ℕ
compress zstd bytes = bytes
compress lz4 bytes = bytes
compress snappy bytes = bytes
compress no_op bytes = bytes

-- `compressMessageData`
unfoldable pub compress_message_data : Algorithm → PoolMessage → PoolMessage
compress_message_data algorithm m =
    let compressed = compress algorithm m.value in
    if length m.value == 0
    then m
    else if ltb (length compressed) (length m.value)
    then record m { value = compressed }
    else m

-- `validateMessage`
unfoldable pub validate_message : Task → ProcessResult PortaskMessage
validate_message (m, nil_payload) =
    if length m.topic == 0
    then failure empty_topic
    else if nil_payload
    then failure nil_value
    else success m

module _ (runes : Text → List ℕ) (decimal : ℕ → Text) (config : ProcessorConfig) where
  -- `copyMessage`
  unfoldable pub copy_message : PoolMessage → Task → PoolMessage
  copy_message dst (src, nil_payload) = record dst {
    id = hash 0 (runes src.id);
    topic = src.topic;
    timestamp = src.timestamp;
    value =
        if config.enable_zero_copy
        then src.payload
        else if nil_payload
        then dst.value
        else copied (get_buffer (length src.payload)) src.payload;
    headers = text_headers src.headers;
  }

  -- `convertToPortaskMessage`: the fields that it does not set are zero.
  unfoldable pub convert_to_portask_message : PoolMessage → PortaskMessage
  convert_to_portask_message m = record {
    id = decimal m.id;
    topic = m.topic;
    payload = m.value;
    timestamp = m.timestamp;
    headers = header_values m.headers;
    metadata = [];
    priority = 0;
    status = pending;
    partition = 0;
    key = [];
    partition_key = [];
    reply_to = [];
    expires_at = 0;
    ttl = 0;
    offset = 0;
    attempts = 0;
    max_retry = 0;
    correlation_id = [];
    trace_id = [];
    internal = no_internal;
  }

  unfoldable pub processed : Task → PortaskMessage
  processed t =
      let copy = copy_message pool_message t in
      convert_to_portask_message (
        if config.enable_compression
        then compress_message_data config.compression_algorithm copy
        else copy)

  abbrev pub if_valid : ProcessResult PortaskMessage → Task → ProcessResult PortaskMessage
  if_valid (failure e) t = failure e
  if_valid (success m) t = success (processed t)

  -- `processSingleMessage`
  unfoldable pub process_single_message : Task → ProcessResult PortaskMessage
  process_single_message t = if_valid (validate_message t) t

  abbrev pub and_rest :
      ProcessResult PortaskMessage
      → Task
      → ProcessResult (List PortaskMessage)
      → ProcessResult (List PortaskMessage)
  and_rest (failure e) t rest = failure e
  and_rest (success m) t (failure e) = failure e
  and_rest (success m) t (success batch) = success (processed t ∷ batch)

  -- `processBatchMessages`
  unfoldable pub process_batch_messages : List Task → ProcessResult (List PortaskMessage)
  process_batch_messages [] = success []
  process_batch_messages (t ∷ tasks) =
      and_rest (validate_message t) t (process_batch_messages tasks)

  -- `ProcessMessage`, where `answered` tells that the task is taken and answered in time.
  unfoldable pub process_message : Bool → Task → ProcessResult PortaskMessage
  process_message answered t =
      if answered then process_single_message t else failure backpressure_or_timeout
