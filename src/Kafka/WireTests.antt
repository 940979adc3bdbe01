-- ===== src/Kafka/WireTests.antt =====
-- Tests of the connection.
use portask.Prelude.{
  none, ◌==◌, ◌-◌, ◌^◌, if◌then◌else◌, ℕ, suc, ◌<◌, ◌≡◌, refl, Option, some, List, [], ◌∷◌, ◌++◌,
  arith,
}
use portask.Prelude.Bytes.{put_uint32_be, read_full}
use portask.Kafka.{Text}
use portask.Kafka.Requests.{
  KafkaRequest, cut_off, read_request, write_string, closed, handle_connection,
}
use portask.Kafka.Answers.{
  frames, message_of, responses, Fits, silent, answers, handle_connection-responses,
}
use portask.Kafka.Produce.{handle_produce}
use portask.Kafka.Clients.{TopicData, produce_body, negative_size}
use portask.Kafka.Produced.{topics_produced, handle_produce-topics}

-- A handler that counts and answers with the number.
abbrev count : ℕ → KafkaRequest → Option (List ℕ × ℕ)
count n r = some (n ∷ [], suc n)

abbrev ask : ℕ → KafkaRequest
ask id = record {
  header = record { api_key = 18; api_version = 3; correlation_id = id; client_id = 99 ∷ [] };
  body = 1 ∷ 2 ∷ [];
}

ask-Fits : (id : ℕ) → id < 100 → Fits (ask id)
unfolding message_of write_string
ask-Fits id h = record {
  api_key = omega arith;
  api_version = omega arith;
  correlation_id = omega (arith, h);
  client_id = omega arith;
  size = omega arith;
}

abbrev two_asks : List KafkaRequest
two_asks = ask 7 ∷ ask 8 ∷ []

-- After two requests the stream breaks off in a size.
handle_connection-responses_example :
    handle_connection count 3 (frames two_asks ++ 0 ∷ 0 ∷ []) [] 5
    ≡ closed cut_off (responses two_asks ((5 ∷ []) ∷ (6 ∷ []) ∷ [])) 7
unfolding read_request read_full
handle_connection-responses_example =
    handle_connection-responses count 5 7 two_asks ((5 ∷ []) ∷ (6 ∷ []) ∷ []) (0 ∷ 0 ∷ []) cut_off 0
      (ask-Fits 7 (omega arith), (ask-Fits 8 (omega arith), tt))
      (answers refl (answers refl silent)) refl

-- A log that numbers what comes, and refuses the partition 1.
abbrev number_sets : Text → ℕ → List ℕ → ℕ → Option ℕ × ℕ
number_sets topic partition set n = if partition == 1 then (none, n) else (some n, suc n)

abbrev two_topics : List TopicData
two_topics =
    record { name = 111 ∷ []; sets = (0, 1 ∷ 2 ∷ []) ∷ (1, []) ∷ [] }
    ∷ record { name = 112 ∷ []; sets = (2, 3 ∷ []) ∷ [] }
    ∷ []

handle_produce-topics_example :
    ◌≡◌ {A = Option (List ℕ × ℕ)}
      (handle_produce number_sets (produce_body 1 500 2 two_topics []) 10)
      (some (
        (put_uint32_be 0 ++ put_uint32_be 2) ++ (topics_produced number_sets two_topics 10).0,
        (topics_produced number_sets two_topics 10).1,
      ))
    × (handle_produce number_sets
          (produce_body 1 500 3 two_topics (negative_size (113 ∷ []) 0 (2 ^ 32 - 1) []))
          10
        ≡ none)
handle_produce-topics_example =
    handle_produce-topics number_sets 1 500 two_topics [] (113 ∷ []) 0 (2 ^ 32 - 1) 10 (omega arith)
      (omega arith) (omega arith)
      (
        omega arith,
        omega arith,
        (omega arith, omega arith, (omega arith, omega arith, tt)),
        (omega arith, omega arith, (omega arith, omega arith, tt), tt),
      )
      (omega arith) (omega arith) (omega arith) (omega arith)
