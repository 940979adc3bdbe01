-- ===== src/Wire/Frame.antt =====
-- Headers, errors and services of pkg/network/protocol.go.
use portask.Prelude.{ℕ, ◌*◌, Bool, true, false, List, ◌∷◌, ◌++◌, take, drop, get_or, if◌then◌else◌}
use portask.Prelude.Bytes.{put_uint16_be, uint16_be, put_uint32_be, uint32_be}

abbrev pub protocol_magic : ℕ
protocol_magic = 0x504F5254

abbrev pub protocol_version : ℕ
protocol_version = 1

abbrev pub header_size : ℕ
header_size = 16

-- `MessageTypePublish` to `MessageTypeResponse`
abbrev pub message_type_publish : ℕ
message_type_publish = 1

abbrev pub message_type_subscribe : ℕ
message_type_subscribe = 2

abbrev pub message_type_fetch : ℕ
message_type_fetch = 3

abbrev pub message_type_ack : ℕ
message_type_ack = 4

abbrev pub message_type_heartbeat : ℕ
message_type_heartbeat = 5

abbrev pub message_type_error : ℕ
message_type_error = 6

abbrev pub message_type_response : ℕ
message_type_response = 7

abbrev pub max_message_size : ℕ
max_message_size = 64 * 1024 * 1024

-- `ProtocolHeader`; its field `Type` is `kind`.
pub record ProtocolHeader : Type 0 where
  pub magic : ℕ
  pub version : ℕ
  pub kind : ℕ
  pub flags : ℕ
  pub payload_length : ℕ
  pub checksum : ℕ

-- The bytes that `writeMessage` makes of a header.
unfoldable pub header_bytes : ProtocolHeader → List ℕ
header_bytes h =
    put_uint32_be h.magic
    ++ (h.version ∷ h.kind ∷ put_uint16_be h.flags)
    ++ put_uint32_be h.payload_length
    ++ put_uint32_be h.checksum

-- The header that `readHeader` makes of its 16 bytes.
unfoldable pub parse_header : List ℕ → ProtocolHeader
parse_header bs = record {
  magic = uint32_be (take 4 bs);
  version = get_or bs 4 0;
  kind = get_or bs 5 0;
  flags = uint16_be (take 2 (drop 6 bs));
  payload_length = uint32_be (take 4 (drop 8 bs));
  checksum = uint32_be (take 4 (drop 12 bs));
}

-- Errors as Go compares them: a value of another package, one made by fmt.Errorf, or one that
-- fmt.Errorf wraps with %w. `net_timeout` and `net_failure` are net.Error values.
pub data Root : Type 0 where
  io_eof io_unexpected_eof net_timeout net_failure canceled other : Root

pub data ErrorText : Type 0 where
  failed_to_read_header invalid_header failed_to_read_payload checksum_failed : ErrorText
  invalid_magic unsupported_version message_too_large checksum_mismatch : ErrorText
  unsupported_type failed_to_decompress failed_to_deserialize failed_to_store : ErrorText
  failed_to_parse failed_to_marshal failed_to_write : ErrorText

pub data GoError : Type 0 where
  plain : Root → GoError
  errorf : ErrorText → GoError
  wrap : ErrorText → GoError → GoError

-- `err == io.EOF`
unfoldable pub is_io_eof : GoError → Bool
is_io_eof (plain io_eof) = true
is_io_eof _ = false

-- `errors.Is(err, context.Canceled) || errors.Is(err, context.DeadlineExceeded)`
unfoldable pub is_canceled : GoError → Bool
is_canceled (plain canceled) = true
is_canceled (wrap t e) = is_canceled e
is_canceled _ = false

-- `isRecoverableError`: the type assertion to net.Error does not look into a wrapped error.
unfoldable pub is_recoverable_error : GoError → Bool
unfolding is_canceled
is_recoverable_error (plain net_timeout) = true
is_recoverable_error (plain net_failure) = false
is_recoverable_error (plain io_eof) = false
is_recoverable_error e = if is_canceled e then false else true

pub data Result (A : Type 0) : Type 0 where
  ok : A → Result A
  err : GoError → Result A

-- `fetchRequest` of `handleFetch`: limits and offsets below zero are left out.
pub record FetchRequest : Type 0 where
  pub topic : List ℕ
  pub partition : ℕ
  pub offset : ℕ
  pub limit : ℕ

-- What the handler calls, for messages of type `M` and a store of type `S`.
pub record Services (M S : Type 0) : Type 0 where
  pub checksum_ieee : List ℕ → ℕ
  pub gunzip : List ℕ → Result (List ℕ)
  pub decode : List ℕ → Result M
  pub store : S → M → Result S
  pub fetch : S → FetchRequest → Result (List M)
  pub parse_topics : List ℕ → Result (List (List ℕ))
  pub topics_reply : List (List ℕ) → Result (List ℕ)
  pub parse_fetch : List ℕ → Result FetchRequest
  pub fetch_reply : FetchRequest → List M → Result (List ℕ)
  pub fetch_error_reply : FetchRequest → GoError → List ℕ
  pub error_text : GoError → List ℕ

-- The parts of `PortaskProtocolHandler` and of its `Connection` that the handler changes.
pub record Session (S : Type 0) : Type 0 where
  pub storage : S
  pub total_messages : ℕ
  pub total_errors : ℕ
  pub max_size : ℕ
  pub input : List ℕ
  pub output : List ℕ
  pub writable : Bool
  pub subscriptions : List (List ℕ)
