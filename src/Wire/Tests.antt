-- ===== src/Wire/Tests.antt =====
-- The theorems about pkg/network/protocol.go at concrete services, whose store is a list, and the
-- checksum that pkg/storage/wal.go computes too.
use portask.Prelude.{
  ℕ, ◌+◌, ◌%◌, ◌^◌, ◌<◌, ◌≡◌, ◌⊎◌, refl, none, true, List, [], ◌∷◌, ◌++◌, arith, length,
}
use portask.Prelude.Bytes.{read_full}
use portask.Wal.Crc.{crc32_checksum, crc32_checksum-lt}
use portask.Wire.Frame.{
  ProtocolHeader, header_bytes, parse_header, ok, Services, Session, message_type_publish,
  message_type_response, max_message_size,
}
use portask.Wire.Handler.{
  receive, response_header, send_response, process_message, handle_connection, running,
  accept_header, validate_header, dispatch, handle_publish, publish_body, store_message,
  after_store, write_message,
}
use portask.Wire.Receive.{FitsFrame, IsFrame, receive-header_bytes, receive_sound}
use portask.Wire.Responses.{send_response-receive}
use portask.Wire.Stored.{Publishes, process_message-storage}
use portask.Wire.Closed.{handle_connection-closed}

abbrev services : Services (List ℕ) (List (List ℕ))
services = record {
  checksum_ieee = crc32_checksum;
  gunzip = λ bs. ok bs;
  decode = λ bs. ok bs;
  store = λ s m. ok (m ∷ s);
  fetch = λ s r. ok s;
  parse_topics = λ bs. ok (bs ∷ []);
  topics_reply = λ ts. ok [];
  parse_fetch = λ bs. ok (record { topic = bs; partition = 0; offset = 0; limit = 0 });
  fetch_reply = λ r ms. ok [];
  fetch_error_reply = λ r e. [];
  error_text = λ e. 63 ∷ [];
}

abbrev payload : List ℕ
payload = 1 ∷ 2 ∷ []

abbrev header : ProtocolHeader
header = response_header services message_type_publish payload

abbrev session : List ℕ → Session (List (List ℕ))
session bs = record {
  storage = [];
  total_messages = 0;
  total_errors = 0;
  max_size = max_message_size;
  input = bs;
  output = [];
  writable = true;
  subscriptions = [];
}

payload-checksum : crc32_checksum payload < 2 ^ 32
payload-checksum = crc32_checksum-lt payload (omega arith)

header-FitsFrame : FitsFrame header
unfolding response_header
header-FitsFrame = record {
  magic_fits = omega arith;
  version_fits = omega arith;
  kind_fits = omega arith;
  flags_fit = omega arith;
  length_fits = omega arith;
  checksum_fits = payload-checksum;
}

header-IsFrame : IsFrame services max_message_size header payload
unfolding response_header
header-IsFrame = record {
  magic_eq = refl;
  version_eq = refl;
  length_eq = refl;
  length_le = omega arith;
  checksum_eq = refl;
}

receive-header_bytes_example :
    receive services max_message_size (header_bytes header ++ (payload ++ 9 ∷ []))
    ≡ (ok (header, payload), 9 ∷ [])
receive-header_bytes_example =
    receive-header_bytes services max_message_size header payload (9 ∷ []) header-FitsFrame
      header-IsFrame

receive_sound_example :
    (bs : List ℕ) × (header_bytes header ++ (payload ++ 9 ∷ []) ≡ bs ++ (payload ++ 9 ∷ []))
    × (length bs ≡ 16)
    × (parse_header bs ≡ header)
    × IsFrame services max_message_size header payload
receive_sound_example =
    receive_sound services max_message_size (header_bytes header ++ (payload ++ 9 ∷ []))
      receive-header_bytes_example

send_response-receive_example :
    (frame : List ℕ) × (send_response services message_type_response payload (session [])
      ≡ (none, record (session []) { output = [] ++ frame }))
    × ((rest : List ℕ)
        → receive services max_message_size (frame ++ rest)
          ≡ (ok (response_header services message_type_response payload, payload), rest))
send_response-receive_example =
    send_response-receive services max_message_size message_type_response payload (session []) refl
      (omega arith) (omega arith) payload-checksum

process_message-storage_example :
    let s = session (header_bytes header ++ (payload ++ [])) in
    ((process_message services s).1.storage ≡ [])
    ⊎ ((m : List ℕ) × Publishes services s m
        × (services.store [] m ≡ ok (process_message services s).1.storage))
process_message-storage_example =
    process_message-storage services (session (header_bytes header ++ (payload ++ [])))

-- The publish frame is stored.
publish_stores :
    (process_message services (session (header_bytes header ++ (payload ++ [])))).1.storage
    ≡ payload ∷ []
unfolding process_message receive response_header header_bytes parse_header crc32_checksum read_full
    accept_header validate_header dispatch handle_publish publish_body store_message after_store
    send_response write_message
publish_stores = refl

handle_connection-closed_example :
    (s : Session (List (List ℕ))) × (handle_connection services 1000 (session []) ≡ running s)
    × (s.total_errors ≡ (0 + 1000) % 2 ^ 64)
    × (s.storage ≡ [])
handle_connection-closed_example =
    handle_connection-closed services 1000 (session []) refl (omega arith)
