-- ===== src/Stores.antt =====
-- The stores in memory: `InMemoryStorage` of pkg/storage/in_memory.go and `InMemoryStore` of
-- cmd/server/inmemory_store.go. A call that changes the store gives the new one; a map is an
-- association list in the order in which Go's loops take it, and an int32 or int64 is its bits. A
-- message is a value: what a caller does with its pointer after a call is not seen.
pub mod Fetch
pub mod Numbers
pub mod Consumers
mod Tests
use portask.Prelude.{
  ℕ, ◌+◌, ◌%◌, ◌^◌, ◌==◌, Bool, true, false, if◌then◌else◌, leb, Option, none, some, List, [], ◌∷◌,
  ◌++◌, length,
}
use portask.Prelude.Maps.{nat_eq, list_eq, beq_list, find, put, remove}
use portask.Message.{PortaskMessage, MessageBatch}

abbrev pub Text : Type 0
Text = List ℕ

abbrev pub Messages : Type 0
Messages = List (Text × PortaskMessage)

-- `InMemoryStorage`
pub record InMemoryStorage : Type 0 where
  pub messages : Messages
  pub next_offset : ℕ

-- `NewInMemoryStorage`
unfoldable pub new_in_memory_storage : InMemoryStorage
new_in_memory_storage = record { messages = []; next_offset = 0 }

-- `Store`
unfoldable pub store : PortaskMessage → InMemoryStorage → InMemoryStorage
store m s = record s {
  next_offset = (s.next_offset + 1) % 2 ^ 64;
  messages = put s.messages m.id (record m { offset = s.next_offset });
}

-- The loop of `StoreBatch`, of both stores: no message gets an offset.
unfoldable pub put_all : List PortaskMessage → Messages → Messages
put_all [] messages = messages
put_all (m ∷ ms) messages = put_all ms (put messages m.id m)

-- `StoreBatch`
unfoldable pub store_batch : MessageBatch → InMemoryStorage → InMemoryStorage
store_batch b s = record s { messages = put_all b.messages s.messages }

-- A negative partition stands for all.
unfoldable pub wanted : Text → ℕ → ℕ → PortaskMessage → Bool
wanted topic partition offset m =
    if beq_list m.topic topic
    then if (if leb (2 ^ 31) partition then true else m.partition == partition)
      then leb offset m.offset
      else false
    else false

-- The loop over the messages with `n` results; it looks at the limit after it has appended one.
unfoldable pub collect : (PortaskMessage → Bool) → ℕ → ℕ → Messages → List PortaskMessage
collect want limit n [] = []
collect want limit n ((id, m) ∷ messages) =
    let more = collect want limit (n + 1) messages in
    let others = collect want limit n messages in
    if want m then (if leb limit (n + 1) then m ∷ [] else m ∷ more) else others

-- `Fetch`; a negative offset or limit acts as 0.
unfoldable pub fetch : Text → ℕ → ℕ → ℕ → InMemoryStorage → List PortaskMessage
fetch topic partition offset limit s = collect (wanted topic partition offset) limit 0 s.messages

-- `FetchByID`
unfoldable pub fetch_by_id : Text → InMemoryStorage → Option PortaskMessage
fetch_by_id id s = find s.messages id

-- `Delete`
unfoldable pub delete : Text → InMemoryStorage → InMemoryStorage
delete id s = record s { messages = remove s.messages id }

-- `DeleteBatch`
unfoldable pub delete_batch : List Text → InMemoryStorage → InMemoryStorage
delete_batch [] s = s
delete_batch (id ∷ ids) s = delete_batch ids (record s { messages = remove s.messages id })

-- `ConsumerOffset` of pkg/types, without its time and metadata, which the store does not read.
pub record ConsumerOffset : Type 0 where
  pub consumer_id : Text
  pub topic : Text
  pub partition : ℕ
  pub offset : ℕ

-- `InMemoryStore` without the topics.
pub record InMemoryStore : Type 0 where
  pub messages : Messages
  pub offsets : List (Text × ConsumerOffset)

-- `NewInMemoryStore`
unfoldable pub new_in_memory_store : InMemoryStore
new_in_memory_store = record { messages = []; offsets = [] }

-- `InMemoryStore.Fetch`, which reads neither its partition nor its offset.
unfoldable pub fetch_topic : Text → ℕ → InMemoryStore → List PortaskMessage
fetch_topic topic limit s = collect (λ m. beq_list m.topic topic) limit 0 s.messages

-- The code of `_`.
abbrev pub underscore : ℕ
underscore = 95

module _ (print : ℕ → Text) where
  -- `fmt.Sprintf("%s_%s_%d", ...)`, where `print` is what `%d` prints.
  unfoldable pub offset_key : Text → Text → ℕ → Text
  offset_key consumer_id topic partition =
      consumer_id ++ underscore ∷ (topic ++ underscore ∷ print partition)

  -- `InMemoryStore.CommitOffset`
  unfoldable pub commit_offset : ConsumerOffset → InMemoryStore → InMemoryStore
  commit_offset o s = record s {
    offsets = put s.offsets (offset_key o.consumer_id o.topic o.partition) o;
  }

  -- `InMemoryStore.CommitOffsetBatch`
  unfoldable pub commit_offset_batch : List ConsumerOffset → InMemoryStore → InMemoryStore
  commit_offset_batch [] s = s
  commit_offset_batch (o ∷ os) s = commit_offset_batch os (commit_offset o s)

  abbrev or_start : Text → Text → ℕ → Option ConsumerOffset → ConsumerOffset
  or_start consumer_id topic partition none = record {
    consumer_id = consumer_id;
    topic = topic;
    partition = partition;
    offset = 0;
  }
  or_start consumer_id topic partition (some o) = o

  -- `InMemoryStore.GetOffset`
  unfoldable pub get_offset : Text → Text → ℕ → InMemoryStore → ConsumerOffset
  get_offset consumer_id topic partition s =
      or_start consumer_id topic partition (find s.offsets (offset_key consumer_id topic partition))
