-- ===== src/Processor/Results.antt =====
-- What pkg/processor/processor.go makes of the messages.
use portask.Prelude.{
  ℕ, zero, suc, drop, ◌≡◌, refl, ap, ◌∙◌, true, false, inl, inr, Bool-cases, if◌then◌else◌, List,
  [], ◌∷◌, ◌++◌, length, arith,
}
use portask.Message.{Text, PortaskMessage}
use portask.Processor.{
  Algorithm, zstd, lz4, snappy, no_op, ProcessorConfig, PoolMessage, ProcessResult, ProcessError,
  success, failure, Task, pool_message, get_buffer, copied, compress, compress_message_data,
  validate_message, copy_message, convert_to_portask_message, processed, if_valid,
  process_single_message, and_rest, process_batch_messages, text_headers, header_values, hash,
}

-- A compressor that copies never makes data smaller.
compress_message_data_lem : (a : Algorithm) (m : PoolMessage) → compress_message_data a m ≡ m
unfolding compress_message_data compress
compress_message_data_lem zstd m = ground arith
compress_message_data_lem lz4 m = ground arith
compress_message_data_lem snappy m = ground arith
compress_message_data_lem no_op m = ground arith

drop-nil : (n : ℕ) → drop {A = ℕ} n [] ≡ []
drop-nil zero = refl
drop-nil (suc n) = refl

module _ (runes : Text → List ℕ) (decimal : ℕ → Text) (config : ProcessorConfig) where
  -- What processing keeps of a message, and what it loses.
  pub record Kept (t : Task) (m : PortaskMessage) : Type 0 where
    pub id : m.id ≡ decimal (hash 0 (runes t.0.id))
    pub topic : m.topic ≡ t.0.topic
    pub timestamp : m.timestamp ≡ t.0.timestamp
    pub headers : m.headers ≡ header_values (text_headers t.0.headers)
    pub payload : m.payload ≡ (if config.enable_zero_copy then t.0.payload else [])
    pub partition : m.partition ≡ 0
    pub key : m.key ≡ []
    pub partition_key : m.partition_key ≡ []
    pub priority : m.priority ≡ 0

  -- The results of messages that are processed one by one.
  pub data Each : List Task → List PortaskMessage → Type 0 where
    nothing : Each [] []
    one_more :
        {t : Task} {m : PortaskMessage} {tasks : List Task} {batch : List PortaskMessage}
        → process_single_message runes decimal config t ≡ success m
        → Kept t m
        → Each tasks batch
        → Each (t ∷ tasks) (m ∷ batch)

  pub data Batched : List Task → ProcessResult (List PortaskMessage) → Type 0 where
    all :
        {tasks : List Task} {batch : List PortaskMessage}
        → Each tasks batch
        → Batched tasks (success batch)
    some_fails :
        {e : ProcessError} (t : Task) (tasks rest : List Task) (batch : List PortaskMessage)
        → Each tasks batch
        → process_single_message runes decimal config t ≡ failure e
        → Batched (tasks ++ t ∷ rest) (failure e)

  same_copy :
      (m : PoolMessage)
      → (if config.enable_compression
          then compress_message_data config.compression_algorithm m
          else m)
        ≡ m
  same_copy m = elim (Bool-cases config.enable_compression) [
    | inl p ↦ rw p (compress_message_data_lem config.compression_algorithm m)
    | inr p ↦ rw p refl
  ]

  copied_value :
      (t : Task)
      → (copy_message runes decimal config pool_message t).value
        ≡ (if config.enable_zero_copy then t.0.payload else [])
  unfolding copy_message pool_message copied get_buffer
  copied_value (src, true) = refl
  copied_value (src, false) =
      ap (λ l. if config.enable_zero_copy then src.payload else l) (drop-nil (length src.payload))

  converted-Kept :
      (t : Task) (copy : PoolMessage)
      → copy ≡ copy_message runes decimal config pool_message t
      → Kept t (convert_to_portask_message runes decimal config copy)
  unfolding convert_to_portask_message copy_message pool_message
  converted-Kept t copy e = record {
    id = ap (λ c. decimal c.id) e;
    topic = ap (λ c. c.topic) e;
    timestamp = ap (λ c. c.timestamp) e;
    headers = ap (λ c. header_values c.headers) e;
    payload = ap (λ c. c.value) e ∙ copied_value t;
    partition = refl;
    key = refl;
    partition_key = refl;
    priority = refl;
  }

  pub processed-Kept : (t : Task) → Kept t (processed runes decimal config t)
  unfolding processed
  processed-Kept t =
      let copy = copy_message runes decimal config pool_message t in
      converted-Kept t _ (same_copy copy)

  batched :
      (r : ProcessResult PortaskMessage) (t : Task) (tasks : List Task)
      (rest : ProcessResult (List PortaskMessage))
      → validate_message t ≡ r
      → Batched tasks rest
      → Batched (t ∷ tasks) (and_rest runes decimal config r t rest)
  unfolding process_single_message
  batched (failure e) t tasks rest v b =
      some_fails t [] tasks [] nothing (ap (λ r. if_valid runes decimal config r t) v)
  batched (success m) t tasks _ v (all each) =
      all (one_more (ap (λ r. if_valid runes decimal config r t) v) (processed-Kept t) each)
  batched (success m) t _ _ v (some_fails u ts rest batch each e) =
      some_fails u (t ∷ ts) rest (processed runes decimal config t ∷ batch)
        (one_more (ap (λ r. if_valid runes decimal config r t) v) (processed-Kept t) each) e

  -- `processBatchMessages` fails with the first message that `processSingleMessage` fails on;
  -- otherwise it gives for each message, in order, what that gives: a message with the same topic and
  -- time and the texts among the headers, under the hash of its id, but with neither partition, keys
  -- nor priority, and with the payload only if zero copy is on: otherwise the payload is empty.
  pub process_batch_messages-Batched :
      (tasks : List Task) → Batched tasks (process_batch_messages runes decimal config tasks)
  unfolding process_batch_messages
  process_batch_messages-Batched [] = all nothing
  process_batch_messages-Batched (t ∷ tasks) =
      batched (validate_message t) t tasks _ refl (process_batch_messages-Batched tasks)
