-- ===== src/Txn/Producer.antt =====
-- `TransactionalProducer` of pkg/kafka/transactions.go. A call gives the error that it returns,
-- `none` for nil, and the new producer.
use portask.Prelude.{
  ℕ, ◌+◌, ◌%◌, ◌^◌, ◌==◌, ==_iff, ◌≡◌, ap, ap₂, ◌↔◌, Bool, true, if◌then◌else◌, Bool-cases, inl,
  inr, Option, none, some, List, [], ◌∷◌, ◌++◌, refl, sym, ◌∙◌, false, false≢true,
}
use portask.Prelude.Maps.{Eq, beq_list, beq_list_iff, nat_eq, list_eq, find, put}
use portask.Txn.Coordinator.{TransactionState, ongoing}
use portask.Txn.Manager.{
  TransactionManager, TxnError, no_ongoing_transaction, new_transaction_manager,
  add_partitions_to_txn,
}

-- `TopicPartition` of pkg/kafka/consumer_groups.go.
pub record TopicPartition : Type 0 where
  pub topic : List ℕ
  pub partition : ℕ

abbrev pub same_partition : TopicPartition → TopicPartition → Bool
same_partition a b = if a.partition == b.partition then beq_list a.topic b.topic else false

pub same_partition_iff : (a b : TopicPartition) → (same_partition a b ≡ true) ↔ (a ≡ b)
same_partition_iff a b = (there, back)
  where
    there : same_partition a b ≡ true → a ≡ b
    there h = elim (Bool-cases (a.partition == b.partition)) [
      | inl p ↦
          ap₂ (λ t n. record { topic = t; partition = n })
            ((beq_list_iff a.topic b.topic).0 (rw p at h)) ((==_iff a.partition b.partition).0 p)
      | inr p ↦ absurd (false≢true (rw p at h))
    ]

    back : a ≡ b → same_partition a b ≡ true
    back e =
        ap (λ c. same_partition a c) (sym e)
        ∙ (rw ((==_iff a.partition a.partition).1 refl) ((beq_list_iff a.topic a.topic).1 refl))

instance abbrev pub partition_eq : Eq TopicPartition
partition_eq = record { beq = same_partition; beq_iff = same_partition_iff }

pub record TransactionalMessage : Type 0 where
  pub key : List ℕ
  pub value : List ℕ
  pub headers : List (List ℕ × List ℕ)
  pub timestamp : ℕ
  pub sequence : ℕ

pub record ProducerBatch : Type 0 where
  pub topic_partition : TopicPartition
  pub messages : List TransactionalMessage
  pub first_sequence : ℕ
  pub last_sequence : ℕ
  pub producer_id : ℕ
  pub producer_epoch : ℕ

-- `map[TopicPartition]*ProducerBatch`
abbrev pub Batches : Type 0
Batches = List (TopicPartition × ProducerBatch)

pub record TransactionalProducer : Type 0 where
  pub transaction_manager : TransactionManager
  pub batches : Batches
  pub sequence_numbers : List (TopicPartition × ℕ)

-- `NewTransactionalProducer`
unfoldable pub new_transactional_producer : List ℕ → ℕ → TransactionalProducer
new_transactional_producer id timeout = record {
  transaction_manager = new_transaction_manager id timeout;
  batches = [];
  sequence_numbers = [];
}

-- `tp.sequenceNumbers[topicPartition]`, 0 for a missing key.
abbrev pub or_zero : Option ℕ → ℕ
or_zero none = 0
or_zero (some n) = n

unfoldable pub sequence_number : TransactionalProducer → TopicPartition → ℕ
sequence_number tp k = or_zero (find tp.sequence_numbers k)

-- The batch that the partition has, or a new one.
unfoldable pub batch_for : TransactionalProducer → TopicPartition → ProducerBatch
batch_for tp k = elim (find tp.batches k) [
  | none ↦ record {
    topic_partition = k;
    messages = [];
    first_sequence = sequence_number tp k;
    last_sequence = 0;
    producer_id = tp.transaction_manager.producer_id;
    producer_epoch = tp.transaction_manager.producer_epoch;
  }
  | some batch ↦ batch
]

-- The batch with the message, which takes the next sequence number.
unfoldable pub add_message : ℕ → TransactionalMessage → ProducerBatch → ProducerBatch
add_message n message batch = record batch {
  messages = batch.messages ++ record message { sequence = n } ∷ [];
  last_sequence = n;
}

unfoldable pub take_message :
    TopicPartition → TransactionalMessage → TransactionalProducer → TransactionalProducer
take_message k message tp =
    let n = sequence_number tp k in
    record tp {
      batches = put tp.batches k (add_message n message (batch_for tp k));
      sequence_numbers = put tp.sequence_numbers k ((n + 1) % 2 ^ 32);
    }

unfoldable pub is_ongoing : TransactionState → Bool
is_ongoing ongoing = true
is_ongoing s = false

-- `SendToTransaction`
unfoldable pub send_to_transaction :
    ℕ
    → List ℕ
    → ℕ
    → TransactionalMessage
    → TransactionalProducer
    → Option TxnError × TransactionalProducer
send_to_transaction now topic partition message tp =
    if is_ongoing tp.transaction_manager.state
    then (let (error, tm) =
          add_partitions_to_txn now ((topic, partition ∷ []) ∷ []) tp.transaction_manager in
        (
          error,
          record (take_message (record { topic = topic; partition = partition }) message tp) {
            transaction_manager = tm;
          },
        ))
    else (some no_ongoing_transaction, tp)

-- `FlushTransaction`: the batches that it hands to `sendBatch`, which never fails, and the producer.
unfoldable pub flush_transaction : TransactionalProducer → Batches × TransactionalProducer
flush_transaction tp = (tp.batches, record tp { batches = [] })
