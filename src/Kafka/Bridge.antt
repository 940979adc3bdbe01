-- ===== src/Kafka/Bridge.antt =====
-- From a produce request to the log: `TranslateProduce` (pkg/kafka/translator.go), and
-- `ProcessorBridge` and `KafkaStorageAdapter` of pkg/kafka/processor_bridge.go. The storage of the
-- bridge is the one of its batch writer. A message of the pool, the next id and the clock are
-- arguments, and one time stands for all of a flush.
use portask.Prelude.{
  ℕ, ◌==◌, Bool, true, false, ◌&&◌, if◌then◌else◌, Option, none, some, List, [], ◌∷◌, length,
}
use portask.Prelude.Maps.{nat_eq, list_eq, put}
use portask.Message.{Text, PortaskMessage}
use portask.Writer.{BatchWriter, new_batch_writer, start, write}
use portask.Processor.{ProcessorConfig, Task, ProcessResult, success, failure, process_message}
use portask.Kafka.Log.{MessageStore, StoreResult, ok, produce_message}

-- `TranslateProduce`
abbrev pub source_key : Text
source_key = 115 ∷ 111 ∷ 117 ∷ 114 ∷ 99 ∷ 101 ∷ []

abbrev pub protocol_key : Text
protocol_key = 112 ∷ 114 ∷ 111 ∷ 116 ∷ 111 ∷ 99 ∷ 111 ∷ 108 ∷ []

abbrev pub version_key : Text
version_key = 118 ∷ 101 ∷ 114 ∷ 115 ∷ 105 ∷ 111 ∷ 110 ∷ []

abbrev pub kafka : Text
kafka = 107 ∷ 97 ∷ 102 ∷ 107 ∷ 97 ∷ []

abbrev pub kafka_wire : Text
kafka_wire = 107 ∷ 97 ∷ 102 ∷ 107 ∷ 97 ∷ 45 ∷ 119 ∷ 105 ∷ 114 ∷ 101 ∷ []

abbrev pub version_2 : Text
version_2 = 50 ∷ 46 ∷ 48 ∷ []

-- The pool gives a message, and whether its payload is nil.
unfoldable pub translate_produce :
    (ℕ → Text) → Task → ℕ → ℕ → Text → ℕ → List ℕ → List ℕ → Option Task
translate_produce decimal (pooled, nil_payload) id now topic partition key value =
    if length topic == 0
    then none
    else some (
      record pooled {
        id = decimal id;
        topic = topic;
        partition = partition;
        key = key;
        payload = value;
        timestamp = now;
        ttl = 0;
        metadata =
            put (put (put pooled.metadata source_key kafka) protocol_key kafka_wire) version_key
              version_2;
      },
      nil_payload && (length value == 0),
    )

abbrev pub or_stop : StoreResult ℕ → MessageStore → Bool × MessageStore → Bool × MessageStore
or_stop (ok offset) s rest = rest
or_stop _ s rest = (true, s)

-- `StoreBatch` of the adapter.
unfoldable pub store_batch : ℕ → MessageStore → List PortaskMessage → Bool × MessageStore
store_batch now s [] = (false, s)
store_batch now s (m ∷ batch) =
    let (r, s') = produce_message m.topic m.partition m.key m.payload now s in
    or_stop r s' (store_batch now s' batch)

-- `ProcessorBridge`
abbrev pub ProcessorBridge : Type 0
ProcessorBridge = BatchWriter PortaskMessage MessageStore

-- `NewProcessorBridge`, with the default configuration of the batch writer.
unfoldable pub new_processor_bridge : MessageStore → ProcessorBridge
new_processor_bridge s = (start (new_batch_writer s 1000 3)).1

abbrev pub answer : Bool → PortaskMessage → Option ℕ
answer true m = none
answer false m = some m.timestamp

abbrev pub written : ℕ → ProcessResult PortaskMessage → ProcessorBridge → Option ℕ × ProcessorBridge
written now (failure e) b = (none, b)
written now (success m) b = let (fails, b') = write (store_batch now) m b in (answer fails m, b')

module _ (runes : Text → List ℕ) (decimal : ℕ → Text) (config : ProcessorConfig) where
  -- `ProduceMessage` of the bridge.
  unfoldable pub produce_task : Bool → ℕ → Task → ProcessorBridge → Option ℕ × ProcessorBridge
  produce_task answered now t b = written now (process_message runes decimal config answered t) b

  abbrev pub produce_if : Bool → ℕ → Option Task → ProcessorBridge → Option ℕ × ProcessorBridge
  produce_if answered now none b = (none, b)
  produce_if answered now (some t) b = produce_task answered now t b

  -- One partition of a request in `handleProduce` (pkg/kafka/handlers.go): the base offset of its
  -- response, if it succeeds.
  unfoldable pub produce :
      Bool → Task → ℕ → ℕ → Text → ℕ → List ℕ → ProcessorBridge → Option ℕ × ProcessorBridge
  produce answered pooled id now topic partition message_set b =
      produce_if answered now
        (translate_produce decimal pooled id now topic partition [] message_set) b
