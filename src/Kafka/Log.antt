-- ===== src/Kafka/Log.antt =====
-- `InMemoryMessageStore` of pkg/kafka/protocol.go. A call that changes the store gives the new one; a
-- time is an argument. The headers of a message, which stay empty, are left out.
use portask.Prelude.{
  ℕ, zero, suc, ◌+◌, ◌%◌, ◌^◌, Bool, true, false, if◌then◌else◌, ltb, leb, Option, none, some, List,
  [], ◌∷◌, ◌++◌, length, drop,
}
use portask.Prelude.Maps.{nat_eq, list_eq, find, put, remove}
use portask.Kafka.{Text}

-- `Message`
pub record Message : Type 0 where
  pub offset : ℕ
  pub key : List ℕ
  pub value : List ℕ
  pub timestamp : ℕ

abbrev pub Partitions : Type 0
Partitions = List (ℕ × List Message)

-- `InMemoryTopic`
pub record InMemoryTopic : Type 0 where
  pub name : Text
  pub partitions : Partitions

-- `InMemoryMessageStore`
abbrev pub MessageStore : Type 0
MessageStore = List (Text × InMemoryTopic)

pub data StoreResult (A : Type 0) : Type 0 where
  ok : A → StoreResult A
  topic_not_found no_topics_requested panic : StoreResult A

-- `NewInMemoryMessageStore`
unfoldable pub new_in_memory_message_store : MessageStore
new_in_memory_message_store = []

-- The partitions from `i` on, `n` of them.
unfoldable pub empty_partitions : ℕ → ℕ → Partitions
empty_partitions zero i = []
empty_partitions (suc n) i = (i, []) ∷ empty_partitions n (i + 1)

abbrev pub or_new : Option InMemoryTopic → Text → ℕ → MessageStore → MessageStore
or_new (some t) topic partitions s = s
or_new none topic partitions s =
    put s topic (record { name = topic; partitions = empty_partitions partitions 0 })

-- `CreateTopic`; a number of partitions below zero acts as 0.
unfoldable pub create_topic : Text → ℕ → MessageStore → MessageStore
create_topic topic partitions s = or_new (find s topic) topic partitions s

abbrev pub or_empty : Option (List Message) → List Message
or_empty none = []
or_empty (some l) = l

-- The message at the end of a partition of the topic.
unfoldable pub append_message : ℕ → List ℕ → List ℕ → ℕ → InMemoryTopic → InMemoryTopic
append_message partition key value now t =
    let msgs = or_empty (find t.partitions partition) in
    record t {
      partitions =
          put t.partitions partition (
            msgs
            ++ record { offset = length msgs; key = key; value = value; timestamp = now } ∷ []);
    }

abbrev pub produced :
    Option InMemoryTopic
    → Text
    → ℕ
    → List ℕ
    → List ℕ
    → ℕ
    → MessageStore
    → StoreResult ℕ × MessageStore
produced none topic partition key value now s = (topic_not_found, s)
produced (some t) topic partition key value now s = (
  ok (length (or_empty (find t.partitions partition))),
  put s topic (append_message partition key value now t),
)

-- `ProduceMessage`
unfoldable pub produce_message :
    Text → ℕ → List ℕ → List ℕ → ℕ → MessageStore → StoreResult ℕ × MessageStore
produce_message topic partition key value now s =
    produced (find s topic) topic partition key value now s

-- `a > b` of two int32.
abbrev pub gt_int32 : ℕ → ℕ → Bool
gt_int32 a b = ltb ((b + 2 ^ 31) % 2 ^ 32) ((a + 2 ^ 31) % 2 ^ 32)

-- The loop over the messages from the offset on, with the size so far, where `some_result` tells
-- whether there is a result.
unfoldable pub collect : ℕ → Bool → ℕ → List Message → List Message
collect size some_result max_bytes [] = []
collect size some_result max_bytes (m ∷ msgs) =
    let size' = (size + length m.value) % 2 ^ 32 in
    let more = m ∷ collect size' true max_bytes msgs in
    if (if gt_int32 size' max_bytes then some_result else false) then [] else more

-- An int64 below zero is no index: reading there panics.
unfoldable pub consume_from : List Message → ℕ → ℕ → StoreResult (List Message)
consume_from msgs offset max_bytes =
    if leb (2 ^ 63) offset
    then panic
    else if leb (length msgs) offset
    then ok []
    else ok (collect 0 false max_bytes (drop offset msgs))

abbrev pub consumed : Option InMemoryTopic → ℕ → ℕ → ℕ → StoreResult (List Message)
consumed none partition offset max_bytes = topic_not_found
consumed (some t) partition offset max_bytes =
    consume_from (or_empty (find t.partitions partition)) offset max_bytes

-- `ConsumeMessages`
unfoldable pub consume_messages : Text → ℕ → ℕ → ℕ → MessageStore → StoreResult (List Message)
consume_messages topic partition offset max_bytes s =
    consumed (find s topic) partition offset max_bytes

-- `GetTopicMetadata`: the topic that it answers for, which it creates with one partition.
unfoldable pub get_topic_metadata :
    List Text → MessageStore → StoreResult (Option InMemoryTopic) × MessageStore
get_topic_metadata [] s = (no_topics_requested, s)
get_topic_metadata (topic ∷ topics) s =
    let s' = or_new (find s topic) topic 1 s in (ok (find s' topic), s')

-- `DeleteTopic`
unfoldable pub delete_topic : Text → MessageStore → MessageStore
delete_topic topic s = remove s topic
