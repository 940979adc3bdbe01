-- ===== src/Kafka/Answers.antt =====
-- What a client of pkg/kafka/protocol.go gets for its requests.
use portask.Prelude.{
  ℕ, suc, ◌+◌, ◌*◌, ◌-◌, ◌^◌, ◌<◌, ◌≤◌, ◌≡◌, refl, sym, ap, ap₂, ◌∙◌, true, false, ltb, leb,
  leb-true, Option, some, List, [], ◌∷◌, ◌++◌, append-nil, append_assoc, length, length-append,
  take, drop, arith,
}
use portask.Prelude.Bytes.{
  put_uint16_be, put_uint32_be, complete, read_full, read_full-append, uint16_be-put, uint32_be-put,
  take-append, drop-append,
}
use portask.Kafka.{Text}
use portask.Kafka.Requests.{
  KafkaRequest, RequestError, received, refused, zeros, read_some, string_of, read_string,
  write_string, read_client_id, or_no_id, with_correlation_id, with_version, with_api_key,
  with_message, with_size, read_request, write_response, closed, after_handler, after_request,
  handle_connection,
}

-- The request as a client writes it: the size, the header and the body.
unfoldable pub message_of : KafkaRequest → List ℕ
message_of r =
    put_uint16_be r.header.api_key
    ++ put_uint16_be r.header.api_version
    ++ put_uint32_be r.header.correlation_id
    ++ write_string r.header.client_id
    ++ r.body

unfoldable pub frame_of : KafkaRequest → List ℕ
frame_of r = put_uint32_be (length (message_of r)) ++ message_of r

-- The fields fit their places, and the size the limit.
pub record Fits (r : KafkaRequest) : Type 0 where
  pub api_key : r.header.api_key < 2 ^ 16
  pub api_version : r.header.api_version < 2 ^ 16
  pub correlation_id : r.header.correlation_id < 2 ^ 32
  pub client_id : length r.header.client_id < 2 ^ 15
  pub size : length (message_of r) ≤ 100 * 1024 * 1024

pub read_some_enough :
    (n x : ℕ) (bytes : List ℕ)
    → n ≤ length (x ∷ bytes)
    → read_some n (x ∷ bytes) ≡ (some (take n (x ∷ bytes)), drop n (x ∷ bytes))
unfolding read_some zeros
read_some_enough n x bytes h =
    let none_missing : n - length (x ∷ bytes) ≡ 0 = omega (arith, h) in
    rw (none_missing, append-nil (take n (x ∷ bytes))) refl

-- A text is read as it is; the empty one at the end of the bytes is an error that acts as it.
read_some-append :
    (s : Text) (rest : List ℕ)
    → (or_no_id (read_some (length s) (s ++ rest)).0 ≡ s)
      × ((read_some (length s) (s ++ rest)).1 ≡ rest)
unfolding read_some zeros
read_some-append [] [] = (refl, refl)
read_some-append [] (b ∷ rest) =
    let r = read_some_enough 0 b rest (omega arith) in (ap (λ o. or_no_id o.0) r, ap (λ o. o.1) r)
read_some-append (x ∷ s) rest =
    let r =
      read_some_enough (length (x ∷ s)) x (s ++ rest) (omega (arith, length-append {0} s rest)) in
    (
      ap (λ o. or_no_id o.0) r ∙ take-append (x ∷ s) rest,
      ap (λ o. o.1) r ∙ drop-append (x ∷ s) rest,
    )

string_of-size :
    (s : Text) (rest : List ℕ)
    → length s < 2 ^ 15
    → string_of (complete (put_uint16_be (length s)) (s ++ rest)) ≡ read_some (length s) (s ++ rest)
string_of-size s rest h =
    let n = uint16_be-put (length s) (omega (arith, h)) in
    let small : leb (2 ^ 15) (length s) ≡ false = ground (arith, h) in rw (n, small) refl

pub read_string-write :
    (s : Text) (rest : List ℕ)
    → length s < 2 ^ 15
    → (or_no_id (read_string (write_string s ++ rest)).0 ≡ s)
      × ((read_string (write_string s ++ rest)).1 ≡ rest)
unfolding read_string write_string
read_string-write s rest h =
    let read =
      ap string_of (read_full-append 2 (put_uint16_be (length s)) (s ++ rest) refl)
      ∙ string_of-size s rest h in
    let (text, left) = read_some-append s rest in
    (ap (λ o. or_no_id o.0) read ∙ text, ap (λ o. o.1) read ∙ left)

read_client_id-write :
    (s : Text) (body : List ℕ)
    → length s < 2 ^ 15
    → read_client_id (write_string s ++ body) ≡ (s, body)
unfolding read_client_id write_string
read_client_id-write s body h =
    let (id, rest) = read_string-write s body h in
    let enough : leb 2 (length (write_string s ++ body)) ≡ true =
      leb-true 2 (length (write_string s ++ body)) (omega arith) in
    rw enough (ap₂ (λ (a : Text) (b : List ℕ). (a, b)) id rest)

parsed :
    (r : KafkaRequest) (after : List ℕ)
    → Fits r
    → with_message (complete (message_of r) after) ≡ received r after
unfolding message_of
parsed r after f =
    let h = r.header in
    let tail = write_string h.client_id ++ r.body in
    let key = uint16_be-put h.api_key f.api_key in
    let version = uint16_be-put h.api_version f.api_version in
    let id = uint32_be-put h.correlation_id f.correlation_id in
    ap (with_api_key after) (
      read_full-append 2 (put_uint16_be h.api_key)
        (put_uint16_be h.api_version ++ (put_uint32_be h.correlation_id ++ tail)) refl)
    ∙ ap
        (λ k.
          with_version k after
            (read_full 2 (put_uint16_be h.api_version ++ (put_uint32_be h.correlation_id ++ tail))))
        key
    ∙ ap (with_version h.api_key after) (
        read_full-append 2 (put_uint16_be h.api_version) (put_uint32_be h.correlation_id ++ tail)
          refl)
    ∙ ap
        (λ v.
          with_correlation_id h.api_key v after
            (read_full 4 (put_uint32_be h.correlation_id ++ tail)))
        version
    ∙ ap (with_correlation_id h.api_key h.api_version after)
        (read_full-append 4 (put_uint32_be h.correlation_id) tail refl)
    ∙ rw (id, read_client_id-write h.client_id r.body f.client_id) refl

read_request-frame :
    (r : KafkaRequest) (after : List ℕ)
    → Fits r
    → read_request (frame_of r ++ after) ≡ received r after
unfolding read_request frame_of
read_request-frame r after f =
    let n = length (message_of r) in
    let size = uint32_be-put n (omega (arith, f.size)) in
    let within : ltb (100 * 1024 * 1024) n ≡ false = ground (arith, f.size) in
    ap with_size (read_full-append 4 (put_uint32_be n) (message_of r ++ after) refl)
    ∙ rw (size, within)
        (ap with_message (read_full-append n (message_of r) after refl) ∙ parsed r after f)

unfoldable pub frames : List KafkaRequest → List ℕ
frames [] = []
frames (r ∷ requests) = frame_of r ++ frames requests

abbrev pub AllFit : List KafkaRequest → Type 0
AllFit [] = Unit {0}
AllFit (r ∷ requests) = Fits r × AllFit requests

-- The responses with these bodies: each has its size, the id of its request, and its body.
unfoldable pub responses : List KafkaRequest → List (List ℕ) → List ℕ
responses (r ∷ requests) (body ∷ bodies) =
    put_uint32_be (4 + length body)
    ++ put_uint32_be r.header.correlation_id
    ++ body
    ++ responses requests bodies
responses _ _ = []

response_bytes :
    (id : ℕ) (body rest : List ℕ)
    → write_response id body ++ rest
      ≡ put_uint32_be (4 + length body) ++ put_uint32_be id ++ body ++ rest
unfolding write_response
response_bytes id body rest =
    let n : suc (suc (suc (suc (length body)))) ≡ 4 + length body = omega arith in
    ap (λ m. put_uint32_be m ++ put_uint32_be id ++ body ++ rest) n

module _ {S : Type 0} (handle_request : S → KafkaRequest → Option (List ℕ × S)) where
  -- The handlers answer the requests, one after another, with these bodies.
  pub data Answers : S → List KafkaRequest → List (List ℕ) → S → Type 0 where
    silent : {s : S} → Answers s [] [] s
    answers :
        {s s' s'' : S} {r : KafkaRequest} {requests : List KafkaRequest} {body : List ℕ}
        {bodies : List (List ℕ)}
        → handle_request s r ≡ some (body, s')
        → Answers s' requests bodies s''
        → Answers s (r ∷ requests) (body ∷ bodies) s''

  connection_answers :
      (s s' : S) (requests : List KafkaRequest) (bodies : List (List ℕ)) (rest : List ℕ)
      (e : RequestError) (n : ℕ) (output : List ℕ)
      → AllFit requests
      → Answers s requests bodies s'
      → read_request rest ≡ refused e
      → handle_connection handle_request
          (length requests + suc n)
          (frames requests ++ rest)
          output
          s
        ≡ closed e (output ++ responses requests bodies) s'
  unfolding frames responses handle_connection
  connection_answers s _ [] _ rest e n output fit silent h =
      let rounds : 0 + suc n ≡ suc n = omega arith in
      ap (λ k. handle_connection handle_request k rest output s) rounds
      ∙ ap (λ q. after_request handle_request (handle_connection handle_request n) q output s) h
      ∙ ap (λ o. closed e o s) (sym (append-nil output))
  connection_answers s s' (r ∷ requests) (body ∷ bodies) rest e n output (fit, fits)
        (answers {s' = m} a others) h =
      let rounds : suc (length requests) + suc n ≡ suc (length requests + suc n) = omega arith in
      let next = handle_connection handle_request (length requests + suc n) in
      let after = frames requests ++ rest in
      let response = write_response r.header.correlation_id body in
      ap₂ (λ k src. handle_connection handle_request k src output s) rounds
        (append_assoc (frame_of r) (frames requests) rest)
      ∙ ap (λ q. after_request handle_request next q output s) (read_request-frame r after fit)
      ∙ ap (after_handler handle_request next r.header.correlation_id after output) a
      ∙ connection_answers m s' requests bodies rest e n (output ++ response) fits others h
      ∙ ap (λ o. closed e o s')
          (append_assoc output response (responses requests bodies)
            ∙ ap (λ l. output ++ l)
                (response_bytes r.header.correlation_id body (responses requests bodies)))
  connection_answers s s' (r ∷ requests) [] rest e n output fit never h = elim never [ ]

-- A client sends any requests whose fields fit their places and whose sizes the limit, and then
-- something that is refused, such as the end of the stream. If the handlers answer the requests, each
-- in the state that the one before it left, then `HandleConnection` writes, for each request in order,
-- one response with its correlation id and the body from its handler, and ends with that refusal,
-- after one round for each request and one more.
pub handle_connection-responses :
    {S : Type 0} (handle_request : S → KafkaRequest → Option (List ℕ × S)) (s s' : S)
    (requests : List KafkaRequest) (bodies : List (List ℕ)) (rest : List ℕ) (e : RequestError)
    (n : ℕ)
    → AllFit requests
    → Answers handle_request s requests bodies s'
    → read_request rest ≡ refused e
    → handle_connection handle_request (length requests + suc n) (frames requests ++ rest) [] s
      ≡ closed e (responses requests bodies) s'
handle_connection-responses handle_request s s' requests bodies rest e n fit answered h =
    connection_answers handle_request s s' requests bodies rest e n [] fit answered h
