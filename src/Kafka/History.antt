-- ===== src/Kafka/History.antt =====
-- The history of calls of the log of pkg/kafka/protocol.go, and what it leaves in a partition.
use portask.Prelude.{ℕ, ◌+◌, ◌==◌, if◌then◌else◌, Option, none, some, List, [], ◌∷◌, ◌++◌}
use portask.Prelude.Maps.{nat_eq, list_eq, beq_list, find}
use portask.Kafka.{Text}
use portask.Kafka.Log.{
  Message, InMemoryTopic, MessageStore, create_topic, or_empty, produce_message, get_topic_metadata,
  delete_topic,
}

pub data Call : Type 0 where
  creates : Text → ℕ → Call
  produces : Text → ℕ → List ℕ → List ℕ → ℕ → Call
  asks : List Text → Call
  deletes : Text → Call

unfoldable pub run_call : Call → MessageStore → MessageStore
run_call (creates topic partitions) s = create_topic topic partitions s
run_call (produces topic partition key value now) s =
    (produce_message topic partition key value now s).1
run_call (asks topics) s = (get_topic_metadata topics s).1
run_call (deletes topic) s = delete_topic topic s

unfoldable pub run_calls : List Call → MessageStore → MessageStore
run_calls [] s = s
run_calls (c ∷ calls) s = run_calls calls (run_call c s)

-- A message without its offset.
pub record Entry : Type 0 where
  pub key : List ℕ
  pub value : List ℕ
  pub timestamp : ℕ

-- The messages of entries, whose offsets are their places from `i` on.
unfoldable pub number : ℕ → List Entry → List Message
number i [] = []
number i (e ∷ entries) =
    record { offset = i; key = e.key; value = e.value; timestamp = e.timestamp }
    ∷ number (i + 1) entries

-- What a partition holds, `none` without its topic.
abbrev pub numbered : Option (List Entry) → Option (List Message)
numbered none = none
numbered (some entries) = some (number 0 entries)

abbrev pub created : Option (List Entry) → Option (List Entry)
created none = some []
created (some entries) = some entries

abbrev pub added : Entry → Option (List Entry) → Option (List Entry)
added e none = none
added e (some entries) = some (entries ++ e ∷ [])

abbrev pub view_of : ℕ → Option InMemoryTopic → Option (List Message)
view_of partition none = none
view_of partition (some t) = some (or_empty (find t.partitions partition))

module _ (topic : Text) (partition : ℕ) where
  unfoldable pub view : MessageStore → Option (List Message)
  view s = view_of partition (find s topic)

  -- What a call makes of the entries of the partition.
  unfoldable pub step : Call → Option (List Entry) → Option (List Entry)
  step (creates t n) o = if beq_list t topic then created o else o
  step (produces t p k v now) o =
      if beq_list t topic
      then if p == partition then added (record { key = k; value = v; timestamp = now }) o else o
      else o
  step (asks []) o = o
  step (asks (t ∷ ts)) o = if beq_list t topic then created o else o
  step (deletes t) o = if beq_list t topic then none else o

  -- The entries that were produced to the partition since its topic was created last.
  unfoldable pub history : List Call → Option (List Entry) → Option (List Entry)
  history [] o = o
  history (c ∷ calls) o = history calls (step c o)
