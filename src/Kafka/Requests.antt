-- ===== src/Kafka/Requests.antt =====
-- Requests and responses on the wire: `readRequest`, `writeResponse`, `readString` and
-- `HandleConnection` of pkg/kafka/protocol.go, and `writeString` of pkg/kafka/protocol_helpers.go. A
-- connection is the bytes that still come; writes to it do not fail. The handlers of a request are a
-- parameter, which may panic. Metrics and logs are left out.
use portask.Prelude.{
  ℕ, zero, suc, ◌*◌, ◌-◌, ◌^◌, if◌then◌else◌, ltb, leb, Option, none, some, List, [], ◌∷◌, ◌++◌,
  length, take, drop,
}
use portask.Prelude.Bytes.{
  put_uint16_be, uint16_be, put_uint32_be, uint32_be, ReadResult, complete, eof, unexpected_eof,
  read_full,
}
use portask.Kafka.{Text}

-- `RequestHeader`
pub record RequestHeader : Type 0 where
  pub api_key : ℕ
  pub api_version : ℕ
  pub correlation_id : ℕ
  pub client_id : Text

-- `KafkaRequest`
pub record KafkaRequest : Type 0 where
  pub header : RequestHeader
  pub body : List ℕ

pub data RequestError : Type 0 where
  no_more_bytes cut_off message_too_large : RequestError

-- What `readRequest` gives, a request with what comes after it.
pub data Received : Type 0 where
  received : KafkaRequest → List ℕ → Received
  refused : RequestError → Received

unfoldable pub zeros : ℕ → List ℕ
zeros zero = []
zeros (suc n) = 0 ∷ zeros n

-- `Read` of bytes.Reader into a slice of `n` zeros: what is there, and an error only at the end.
unfoldable pub read_some : ℕ → List ℕ → Option Text × List ℕ
read_some n [] = (none, [])
read_some n (b ∷ bytes) =
    (some (take n (b ∷ bytes) ++ zeros (n - length (b ∷ bytes))), drop n (b ∷ bytes))

abbrev pub string_of : ReadResult → Option Text × List ℕ
string_of (complete bytes rest) =
    let n = uint16_be bytes in
    let text = read_some n rest in if leb (2 ^ 15) n then (some [], rest) else text
string_of eof = (none, [])
string_of unexpected_eof = (none, [])

-- `readString`; a length below zero is the null string.
unfoldable pub read_string : List ℕ → Option Text × List ℕ
read_string src = string_of (read_full 2 src)

-- `writeString`
unfoldable pub write_string : Text → List ℕ
write_string s = put_uint16_be (length s) ++ s

abbrev pub or_no_id : Option Text → Text
or_no_id none = []
or_no_id (some s) = s

unfoldable pub read_client_id : List ℕ → Text × List ℕ
read_client_id rest =
    let (s, rest') = read_string rest in
    if leb 2 (length rest) then (or_no_id s, rest') else ([], rest)

abbrev pub with_correlation_id : ℕ → ℕ → List ℕ → ReadResult → Received
with_correlation_id key version after (complete bytes rest) =
    let (client_id, body) = read_client_id rest in
    received
      (record {
        header = record {
          api_key = key;
          api_version = version;
          correlation_id = uint32_be bytes;
          client_id = client_id;
        };
        body = body;
      })
      after
with_correlation_id key version after eof = refused no_more_bytes
with_correlation_id key version after unexpected_eof = refused cut_off

abbrev pub with_version : ℕ → List ℕ → ReadResult → Received
with_version key after (complete bytes rest) =
    with_correlation_id key (uint16_be bytes) after (read_full 4 rest)
with_version key after eof = refused no_more_bytes
with_version key after unexpected_eof = refused cut_off

abbrev pub with_api_key : List ℕ → ReadResult → Received
with_api_key after (complete bytes rest) = with_version (uint16_be bytes) after (read_full 2 rest)
with_api_key after eof = refused no_more_bytes
with_api_key after unexpected_eof = refused cut_off

abbrev pub with_message : ReadResult → Received
with_message (complete message after) = with_api_key after (read_full 2 message)
with_message eof = refused no_more_bytes
with_message unexpected_eof = refused cut_off

abbrev pub with_size : ReadResult → Received
with_size (complete bytes rest) =
    if ltb (100 * 1024 * 1024) (uint32_be bytes)
    then refused message_too_large
    else with_message (read_full (uint32_be bytes) rest)
with_size eof = refused no_more_bytes
with_size unexpected_eof = refused cut_off

-- `readRequest`
unfoldable pub read_request : List ℕ → Received
read_request src = with_size (read_full 4 src)

-- `writeResponse`: the bytes for the correlation id and the body of a response.
unfoldable pub write_response : ℕ → List ℕ → List ℕ
write_response correlation_id body =
    let response = put_uint32_be correlation_id ++ body in
    put_uint32_be (length response) ++ response

-- How a connection ends, with the bytes written and the state of the server.
pub data Connection (S : Type 0) : Type 0 where
  closed : RequestError → List ℕ → S → Connection S
  panicked : List ℕ → Connection S
  still_open : List ℕ → S → Connection S

module _ {S : Type 0} (handle_request : S → KafkaRequest → Option (List ℕ × S)) where
  abbrev pub after_handler :
      (List ℕ → List ℕ → S → Connection S)
      → ℕ
      → List ℕ
      → List ℕ
      → Option (List ℕ × S)
      → Connection S
  after_handler next correlation_id rest output none = panicked output
  after_handler next correlation_id rest output (some (body, s)) =
      next rest (output ++ write_response correlation_id body) s

  abbrev pub after_request :
      (List ℕ → List ℕ → S → Connection S) → Received → List ℕ → S → Connection S
  after_request next (refused e) output s = closed e output s
  after_request next (received r rest) output s =
      after_handler next r.header.correlation_id rest output (handle_request s r)

  -- `HandleConnection`, for at most as many rounds of its loop.
  unfoldable pub handle_connection : ℕ → List ℕ → List ℕ → S → Connection S
  handle_connection zero src output s = still_open output s
  handle_connection (suc rounds) src output s =
      after_request (handle_connection rounds) (read_request src) output s
