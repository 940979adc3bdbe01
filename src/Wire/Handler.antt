-- ===== src/Wire/Handler.antt =====
-- `HandleConnection` and the handlers of pkg/network/protocol.go. Each returns its error, if any,
-- and the session that it leaves.
use portask.Prelude.{
  ℕ, zero, suc, ◌+◌, ◌%◌, ◌^◌, Option, none, some, List, [], ◌∷◌, ◌++◌, length, ltb, ◌==◌,
  if◌then◌else◌,
}
use mathlib.Core.Option
use portask.Prelude.Bits.{bit_and}
use portask.Prelude.Bytes.{ReadResult, complete, eof, unexpected_eof, read_full}
use portask.Wire.Frame.{
  ProtocolHeader, header_bytes, parse_header, protocol_magic, protocol_version, header_size,
  GoError, plain, errorf, wrap, io_eof, io_unexpected_eof, net_failure, Result, ok, err,
  FetchRequest, Services, Session, is_io_eof, is_recoverable_error,
}
use portask.Wire.Frame.{
  message_type_publish, message_type_subscribe, message_type_fetch, message_type_heartbeat,
  message_type_error, message_type_response,
}
use portask.Wire.Frame.{
  failed_to_read_header, invalid_header, failed_to_read_payload, checksum_failed, invalid_magic,
  unsupported_version, message_too_large, checksum_mismatch, unsupported_type, failed_to_decompress,
  failed_to_deserialize, failed_to_store, failed_to_parse, failed_to_marshal, failed_to_write,
}

-- `atomic.AddInt64` by one, on bit patterns.
abbrev pub count_up : ℕ → ℕ
count_up n = (n + 1) % 2 ^ 64

module _ {S : Type 0} where
  -- `Connection.Write`
  abbrev conn_write : Session S → List ℕ → Option GoError × Session S
  conn_write s bs =
      if s.writable
      then (none, record s { output = s.output ++ bs })
      else (some (plain net_failure), s)

  write_payload : List ℕ → Option GoError × Session S → Option GoError × Session S
  write_payload payload (some e, s) = (some (wrap failed_to_write e), s)
  write_payload payload (none, s) =
      if ltb 0 (length payload)
      then (let (e, s') = conn_write s payload in (Option.map (wrap failed_to_write) e, s'))
      else (none, s)

  -- `writeMessage`: an empty payload is not written.
  unfoldable pub write_message : ProtocolHeader → List ℕ → Session S → Option GoError × Session S
  unfolding write_payload
  write_message h payload s = write_payload payload (conn_write s (header_bytes h))

-- "message_stored" and "pong".
abbrev pub stored_text : List ℕ
stored_text = 109 ∷ 101 ∷ 115 ∷ 115 ∷ 97 ∷ 103 ∷ 101 ∷ 95 ∷ 115 ∷ 116 ∷ 111 ∷ 114 ∷ 101 ∷ 100 ∷ []

abbrev pub pong : List ℕ
pong = 112 ∷ 111 ∷ 110 ∷ 103 ∷ []

-- `validateHeader`
unfoldable pub validate_header : ℕ → ProtocolHeader → Option GoError
validate_header max_size h =
    if h.magic == protocol_magic
    then (if h.version == protocol_version
        then (if ltb (max_size % 2 ^ 32) h.payload_length
            then some (errorf message_too_large)
            else none)
        else some (errorf unsupported_version))
    else some (errorf invalid_magic)

-- What one round of `HandleConnection` does while its context is not done: it goes on, or it
-- returns, with an error or not.
pub data Round (S : Type 0) : Type 0 where
  running : Session S → Round S
  returned : Option GoError → Session S → Round S

module _ {M S : Type 0} (sv : Services M S) where
  -- The part of `processMessage` before its switch: the header and payload read, and the input
  -- that is left.
  check_payload : ProtocolHeader → List ℕ → Result (ProtocolHeader × List ℕ)
  check_payload h payload =
      if h.checksum == sv.checksum_ieee payload
      then ok (h, payload)
      else err (wrap checksum_failed (errorf checksum_mismatch))

  read_payload : ProtocolHeader → ReadResult → Result (ProtocolHeader × List ℕ) × List ℕ
  unfolding check_payload
  read_payload h (complete payload rest) = (check_payload h payload, rest)
  read_payload h eof = (err (wrap failed_to_read_payload (plain io_eof)), [])
  read_payload h unexpected_eof = (err (wrap failed_to_read_payload (plain io_unexpected_eof)), [])

  unfoldable pub accept_header :
      ℕ → ProtocolHeader → List ℕ → Result (ProtocolHeader × List ℕ) × List ℕ
  unfolding read_payload
  accept_header max_size h rest = elim (validate_header max_size h) [
    | some e ↦ (err (wrap invalid_header e), rest)
    | none ↦ read_payload h (read_full h.payload_length rest)
  ]

  unfoldable pub read_header : ℕ → ReadResult → Result (ProtocolHeader × List ℕ) × List ℕ
  read_header max_size (complete bs rest) = accept_header max_size (parse_header bs) rest
  read_header max_size eof = (err (wrap failed_to_read_header (plain io_eof)), [])
  read_header max_size unexpected_eof =
      (err (wrap failed_to_read_header (plain io_unexpected_eof)), [])

  unfoldable pub receive : ℕ → List ℕ → Result (ProtocolHeader × List ℕ) × List ℕ
  unfolding read_header
  receive max_size src = read_header max_size (read_full header_size src)

  -- `sendResponse`, and `sendErrorResponse` with the error's text.
  unfoldable pub response_header : ℕ → List ℕ → ProtocolHeader
  response_header kind payload = record {
    magic = protocol_magic;
    version = protocol_version;
    kind = kind;
    flags = 0;
    payload_length = length payload % 2 ^ 32;
    checksum = sv.checksum_ieee payload;
  }

  unfoldable pub send_response : ℕ → List ℕ → Session S → Option GoError × Session S
  send_response kind payload s = write_message (response_header kind payload) payload s

  -- `handlePublish`: its payload, the message in it, and the reply once that is stored.
  unfoldable pub payload_body : ProtocolHeader → List ℕ → Result (List ℕ)
  payload_body h payload = if bit_and h.flags 1 == 0 then ok payload else sv.gunzip payload

  unfoldable pub after_store : Result S → Session S → Option GoError × Session S
  after_store (err e) s =
      (some (wrap failed_to_store e), record s { total_errors = count_up s.total_errors })
  after_store (ok storage) s =
      send_response message_type_response stored_text
        (record s { storage = storage; total_messages = count_up s.total_messages })

  unfoldable pub store_message : Result M → Session S → Option GoError × Session S
  store_message (err e) s =
      (some (wrap failed_to_deserialize e), record s { total_errors = count_up s.total_errors })
  store_message (ok m) s = after_store (sv.store s.storage m) s

  unfoldable pub publish_body : Result (List ℕ) → Session S → Option GoError × Session S
  publish_body (err e) s = (some (wrap failed_to_decompress e), s)
  publish_body (ok body) s = store_message (sv.decode body) s

  unfoldable pub handle_publish : ProtocolHeader → List ℕ → Session S → Option GoError × Session S
  unfolding payload_body
  handle_publish h payload s = publish_body (payload_body h payload) s

  -- `handleSubscribe`. The topics are the keys of a map: a repeat in the list is one key.
  unfoldable pub handle_subscribe : List ℕ → Session S → Option GoError × Session S
  handle_subscribe payload s = elim (sv.parse_topics payload) [
    | err e ↦ (some (wrap failed_to_parse e), record s { total_errors = count_up s.total_errors })
    | ok topics ↦
        let s' : Session S = record s {
          subscriptions = s.subscriptions ++ topics;
          total_messages = count_up s.total_messages;
        } in
        elim (sv.topics_reply topics) [
          | err e ↦ (some (wrap failed_to_marshal e), s')
          | ok text ↦ send_response message_type_response text s'
        ]
  ]

  -- `handleFetch`: the payload is always decompressed, and a limit of 0 means 100.
  unfoldable pub handle_fetch : List ℕ → Session S → Option GoError × Session S
  handle_fetch payload s = elim (sv.gunzip payload) [
    | err e ↦ (some (wrap failed_to_decompress e), s)
    | ok text ↦ elim (sv.parse_fetch text) [
      | err e ↦ (some (wrap failed_to_parse e), s)
      | ok r ↦
          let r' : FetchRequest = record r { limit = if r.limit == 0 then 100 else r.limit } in
          elim (sv.fetch s.storage r') [
            | err e ↦ send_response message_type_response (sv.fetch_error_reply r' e) s
            | ok ms ↦ elim (sv.fetch_reply r' ms) [
              | err e ↦ (some (wrap failed_to_marshal e), s)
              | ok reply ↦ send_response message_type_response reply s
            ]
          ]
    ]
  ]

  -- `handleHeartbeat`
  unfoldable pub handle_heartbeat : Session S → Option GoError × Session S
  handle_heartbeat s = send_response message_type_heartbeat pong s

  -- The switch of `processMessage`.
  unfoldable pub dispatch : ProtocolHeader → List ℕ → Session S → Option GoError × Session S
  dispatch h payload s =
      if h.kind == message_type_publish
      then handle_publish h payload s
      else if h.kind == message_type_subscribe
      then handle_subscribe payload s
      else if h.kind == message_type_fetch
      then handle_fetch payload s
      else if h.kind == message_type_heartbeat
      then handle_heartbeat s
      else (some (errorf unsupported_type), s)

  unfoldable pub finish : Result (ProtocolHeader × List ℕ) → Session S → Option GoError × Session S
  finish (err e) s = (some e, s)
  finish (ok (h, payload)) s = dispatch h payload s

  unfoldable pub process_message : Session S → Option GoError × Session S
  unfolding finish
  process_message s =
      let (r, rest) = receive s.max_size s.input in finish r (record s { input = rest })

  unfoldable pub handle_error : GoError → Session S → Round S
  handle_error e s =
      if is_io_eof e
      then returned none s
      else (let s' =
            (send_response message_type_error (sv.error_text e)
              (record s { total_errors = count_up s.total_errors })).1 in
          if is_recoverable_error e then running s' else returned (some e) s')

  after_message : Option GoError × Session S → Round S
  after_message (none, s) = running s
  after_message (some e, s) = handle_error e s

  unfoldable pub handle_round : Session S → Round S
  unfolding after_message
  handle_round s = after_message (process_message s)

  -- `HandleConnection` for so many rounds.
  unfoldable pub handle_connection : ℕ → Session S → Round S
  handle_connection zero s = running s
  handle_connection (suc n) s = elim (handle_round s) [
    | running s' ↦ handle_connection n s'
    | returned e s' ↦ returned e s'
  ]
