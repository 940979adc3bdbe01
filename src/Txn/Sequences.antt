-- ===== src/Txn/Sequences.antt =====
-- Calls of a `TransactionalProducer` (pkg/kafka/transactions.go) one after another: which messages
-- it hands over, in which order and under which sequence numbers.
use portask.Prelude.{
  ◌⊎◌, false≢true, ℕ, ◌+◌, ◌%◌, ◌^◌, ◌≡◌, ◌≢◌, refl, sym, ap, ap₂, ◌∙◌, subst, Bool, true, false,
  Bool-cases, if◌then◌else◌, inl, inr, Option, none, some, List, [], ◌∷◌, ◌++◌, append-nil,
  append_assoc, arith, length, length-append,
}
use portask.Prelude.Maps.{nat_eq, list_eq, find, find-put_self, find-put_ne}
use portask.Txn.Manager.{
  TransactionManager, TxnError, no_ongoing_transaction, add_partitions_to_txn,
}
use portask.Txn.Spec.{ManagerCall}
use portask.Txn.Calls.{call}
use portask.Txn.Producer.{
  TopicPartition, partition_eq, same_partition, same_partition_iff, TransactionalMessage,
  ProducerBatch, Batches, TransactionalProducer, new_transactional_producer, or_zero,
  sequence_number, batch_for, is_ongoing, add_message, take_message, send_to_transaction,
  flush_transaction,
}

-- A call of the producer, or of its transaction manager.
pub data ProducerCall : Type 0 where
  send : ℕ → List ℕ → ℕ → TransactionalMessage → ProducerCall
  flush : ProducerCall
  on_manager : ManagerCall → ProducerCall

-- A producer with what happened so far: the batches that each flush handed over, and the messages
-- that `SendToTransaction` took, with their partitions.
pub record Trace : Type 0 where
  pub producer : TransactionalProducer
  pub flushed : List Batches
  pub taken : List (TopicPartition × TransactionalMessage)

-- `SendToTransaction` takes the message unless no transaction is ongoing.
abbrev pub was_taken : Option TxnError → Bool
was_taken (some no_ongoing_transaction) = false
was_taken e = true

unfoldable pub step : Trace → ProducerCall → Trace
step t (send now topic partition message) =
    let (e, tp) = send_to_transaction now topic partition message t.producer in
    record t {
      producer = tp;
      taken =
          if was_taken e
          then t.taken ++ (record { topic = topic; partition = partition }, message) ∷ []
          else t.taken;
    }
step t flush =
    let (batches, tp) = flush_transaction t.producer in
    record t { producer = tp; flushed = t.flushed ++ batches ∷ [] }
step t (on_manager c) = record t {
  producer = record t.producer { transaction_manager = (call t.producer.transaction_manager c).1 };
}

unfoldable pub steps : Trace → List ProducerCall → Trace
steps t [] = t
steps t (c ∷ cs) = steps (step t c) cs

-- The messages of a partition among the batches of a producer.
abbrev pub messages_in : Option ProducerBatch → List TransactionalMessage
messages_in none = []
messages_in (some batch) = batch.messages

unfoldable pub messages_of : TopicPartition → Batches → List TransactionalMessage
messages_of k batches = messages_in (find batches k)

unfoldable pub flushed_of : TopicPartition → List Batches → List TransactionalMessage
flushed_of k [] = []
flushed_of k (batches ∷ flushed) = messages_of k batches ++ flushed_of k flushed

unfoldable pub taken_of :
    TopicPartition → List (TopicPartition × TransactionalMessage) → List TransactionalMessage
taken_of k [] = []
taken_of k ((k', message) ∷ taken) =
    if same_partition k' k then message ∷ taken_of k taken else taken_of k taken

-- Messages with the sequence numbers `n`, `n + 1`, ..., as the bits of an int32.
unfoldable pub numbered : ℕ → List TransactionalMessage → List TransactionalMessage
numbered n [] = []
numbered n (message ∷ messages) =
    record message { sequence = n % 2 ^ 32 } ∷ numbered (n + 1) messages

flushed_of-snoc :
    (k : TopicPartition) (flushed : List Batches) (batches : Batches)
    → flushed_of k (flushed ++ batches ∷ []) ≡ flushed_of k flushed ++ messages_of k batches
unfolding flushed_of
flushed_of-snoc k [] batches = append-nil (messages_of k batches)
flushed_of-snoc k (b ∷ flushed) batches =
    ap (λ l. messages_of k b ++ l) (flushed_of-snoc k flushed batches)
    ∙ sym (append_assoc (messages_of k b) (flushed_of k flushed) (messages_of k batches))

taken_of-snoc :
    (k k' : TopicPartition) (taken : List (TopicPartition × TransactionalMessage))
    (message : TransactionalMessage)
    → taken_of k (taken ++ (k', message) ∷ [])
      ≡ taken_of k taken ++ (if same_partition k' k then message ∷ [] else [])
unfolding taken_of
taken_of-snoc k k' [] message = refl
taken_of-snoc k k' ((j, m) ∷ taken) message = elim (Bool-cases (same_partition j k)) [
  | inl p ↦ rw p (ap (λ l. m ∷ l) (taken_of-snoc k k' taken message))
  | inr p ↦ rw p (taken_of-snoc k k' taken message)
]

numbered-snoc :
    (n : ℕ) (messages : List TransactionalMessage) (message : TransactionalMessage)
    → numbered n (messages ++ message ∷ [])
      ≡ numbered n messages ++ record message { sequence = (n + length messages) % 2 ^ 32 } ∷ []
unfolding numbered
numbered-snoc n [] message = ap (λ i. record message { sequence = i % 2 ^ 32 } ∷ []) (omega arith)
numbered-snoc n (m ∷ messages) message =
    ap (λ l. record m { sequence = n % 2 ^ 32 } ∷ l)
      (numbered-snoc (n + 1) messages message
        ∙ ap (λ i. numbered (n + 1) messages ++ record message { sequence = i % 2 ^ 32 } ∷ [])
            (omega arith))

-- What the producer handed over and still holds for a partition is what it took, numbered.
pub record Numbers (t : Trace) (k : TopicPartition) : Type 0 where
  pub handed :
      flushed_of k t.flushed ++ messages_of k t.producer.batches ≡ numbered 0 (taken_of k t.taken)
  pub next : sequence_number t.producer k ≡ length (taken_of k t.taken) % 2 ^ 32

batch_for-messages :
    (k : TopicPartition) (tp : TransactionalProducer)
    → (batch_for tp k).messages ≡ messages_of k tp.batches
unfolding messages_of batch_for
batch_for-messages k tp = ground arith

pub take_message_self :
    (k : TopicPartition) (message : TransactionalMessage) (tp : TransactionalProducer)
    → (messages_of k (take_message k message tp).batches
        ≡ messages_of k tp.batches ++ record message { sequence = sequence_number tp k } ∷ [])
      × (sequence_number (take_message k message tp) k ≡ (sequence_number tp k + 1) % 2 ^ 32)
unfolding messages_of take_message add_message sequence_number
take_message_self k message tp =
    let n = sequence_number tp k in
    (
      ap messages_in (find-put_self tp.batches k (add_message n message (batch_for tp k)))
          ∙ ap (λ l. l ++ record message { sequence = n } ∷ []) (batch_for-messages k tp),
      ap or_zero (find-put_self tp.sequence_numbers k ((n + 1) % 2 ^ 32)),
    )

take_message-ne :
    (k j : TopicPartition) (message : TransactionalMessage) (tp : TransactionalProducer)
    → k ≢ j
    → (messages_of j (take_message k message tp).batches ≡ messages_of j tp.batches)
      × (sequence_number (take_message k message tp) j ≡ sequence_number tp j)
unfolding messages_of take_message sequence_number
take_message-ne k j message tp n =
    let i = sequence_number tp k in
    (
      ap messages_in
          (find-put_ne tp.batches {k = k} {j = j} (add_message i message (batch_for tp k)) n),
      ap or_zero (find-put_ne tp.sequence_numbers {k = k} {j = j} ((i + 1) % 2 ^ 32) n),
    )

-- What a taken message leaves.
abbrev with_message : TopicPartition → TransactionalMessage → TransactionManager → Trace → Trace
with_message k message tm t = record t {
  producer = record (take_message k message t.producer) { transaction_manager = tm };
  taken = t.taken ++ (k, message) ∷ [];
}

zero_plus : (n : ℕ) → n ≡ 0 + n
zero_plus n = omega arith

suc_wraps : (n : ℕ) → (n % 2 ^ 32 + 1) % 2 ^ 32 ≡ (n + 1) % 2 ^ 32
suc_wraps n = omega arith

with_message_self :
    (k : TopicPartition) (message : TransactionalMessage) (tm : TransactionManager) (t : Trace)
    → Numbers t k
    → Numbers (with_message k message tm t) k
unfolding sequence_number
with_message_self k message tm t h =
    let (a, b) = take_message_self k message t.producer in
    let old = taken_of k t.taken in
    let c =
      taken_of-snoc k k t.taken message
      ∙ ap (λ b. old ++ (if b then message ∷ [] else [])) ((same_partition_iff k k).1 refl) in
    let number = λ (i : ℕ). record message { sequence = i } ∷ [] in
    record {
      handed =
          ap (λ l. flushed_of k t.flushed ++ l) a
          ∙ sym (
              append_assoc (flushed_of k t.flushed) (messages_of k t.producer.batches)
                (number (sequence_number t.producer k)))
          ∙ ap₂ (λ l i. l ++ number i) h.handed h.next
          ∙ ap (λ i. numbered 0 old ++ number (i % 2 ^ 32)) (zero_plus (length old))
          ∙ sym (numbered-snoc 0 old message)
          ∙ ap (λ l. numbered 0 l) (sym c);
      next =
          b
          ∙ ap (λ i. (i + 1) % 2 ^ 32) h.next
          ∙ suc_wraps (length old)
          ∙ ap (λ n. n % 2 ^ 32) (sym (length-append old (message ∷ [])))
          ∙ ap (λ l. length l % 2 ^ 32) (sym c);
    }

with_message-Numbers :
    (k j : TopicPartition) (message : TransactionalMessage) (tm : TransactionManager) (t : Trace)
    → Numbers t j
    → Numbers (with_message k message tm t) j
unfolding sequence_number
with_message-Numbers k j message tm t h = elim (Bool-cases (same_partition k j)) [
  | inl p ↦
      subst (λ i. Numbers (with_message k message tm t) i) ((same_partition_iff k j).0 p)
        (with_message_self k message tm t
          (subst (λ i. Numbers t i) (sym ((same_partition_iff k j).0 p)) h))
  | inr p ↦
      let (a, b) =
        take_message-ne k j message t.producer
          (λ q. false≢true (sym p ∙ (same_partition_iff k j).1 q)) in
      let c =
        taken_of-snoc j k t.taken message
        ∙ ap (λ b. taken_of j t.taken ++ (if b then message ∷ [] else [])) p
        ∙ append-nil (taken_of j t.taken) in
      record {
        handed =
            ap (λ l. flushed_of j t.flushed ++ l) a ∙ h.handed ∙ ap (λ l. numbered 0 l) (sym c);
        next = b ∙ h.next ∙ ap (λ l. length l % 2 ^ 32) (sym c);
      }
]

add_partitions_to_txn-taken :
    (now : ℕ) (request : List (List ℕ × List ℕ)) (tm : TransactionManager)
    → was_taken (add_partitions_to_txn now request tm).0 ≡ true
unfolding add_partitions_to_txn
add_partitions_to_txn-taken now request tm = ground arith

-- `SendToTransaction` on both of its branches.
step-send :
    (t : Trace) (now : ℕ) (topic : List ℕ) (partition : ℕ) (message : TransactionalMessage)
    → (step t (send now topic partition message) ≡ t)
      ⊎ ((tm : TransactionManager) × (step t (send now topic partition message)
            ≡ with_message (record { topic = topic; partition = partition }) message tm t))
unfolding step send_to_transaction
step-send t now topic partition message =
    elim (Bool-cases (is_ongoing t.producer.transaction_manager.state)) [
      | inl p ↦ inr (
        (add_partitions_to_txn now ((topic, partition ∷ []) ∷ []) t.producer.transaction_manager).1,
        rw
            (
              p,
              add_partitions_to_txn-taken now ((topic, partition ∷ []) ∷ [])
                  t.producer.transaction_manager,
            )
            refl,
      )
      | inr p ↦ inl (rw p refl)
    ]

step-Numbers :
    (t : Trace) (c : ProducerCall) (k : TopicPartition) → Numbers t k → Numbers (step t c) k
unfolding step flush_transaction sequence_number messages_of find
step-Numbers t (send now topic partition message) k h =
    elim (step-send t now topic partition message) [
      | inl e ↦ subst (λ u. Numbers u k) (sym e) h
      | inr (tm, e) ↦
          subst (λ u. Numbers u k) (sym e)
            (with_message-Numbers (record { topic = topic; partition = partition }) k message tm t
              h)
    ]
step-Numbers t flush k h = record {
  handed =
      append-nil (flushed_of k (t.flushed ++ t.producer.batches ∷ []))
      ∙ flushed_of-snoc k t.flushed t.producer.batches
      ∙ h.handed;
  next = h.next;
}
step-Numbers t (on_manager c) k h = record { handed = h.handed; next = h.next }

steps-Numbers :
    (t : Trace) (cs : List ProducerCall) (k : TopicPartition) → Numbers t k → Numbers (steps t cs) k
unfolding steps
steps-Numbers t [] k h = h
steps-Numbers t (c ∷ cs) k h = steps-Numbers (step t c) cs k (step-Numbers t c k h)

-- A new producer, with nothing flushed or taken.
abbrev pub new_trace : List ℕ → ℕ → Trace
new_trace id timeout = record {
  producer = new_transactional_producer id timeout;
  flushed = [];
  taken = [];
}

new_trace-Numbers :
    (id : List ℕ) (timeout : ℕ) (k : TopicPartition) → Numbers (new_trace id timeout) k
unfolding new_transactional_producer sequence_number messages_of flushed_of taken_of numbered find
new_trace-Numbers id timeout k = record { handed = refl; next = refl }

-- After any calls of a new producer and its transaction manager, the messages of a partition that
-- the flushes handed over, followed by those still in its batch, are exactly the messages that
-- `SendToTransaction` took for it, each once and in their order, under the sequence numbers 0, 1,
-- 2, ... as an int32 counts.
pub send_numbers :
    (id : List ℕ) (timeout : ℕ) (cs : List ProducerCall) (k : TopicPartition)
    → let t = steps (new_trace id timeout) cs in
      flushed_of k t.flushed ++ messages_of k t.producer.batches ≡ numbered 0 (taken_of k t.taken)
send_numbers id timeout cs k =
    (steps-Numbers (new_trace id timeout) cs k (new_trace-Numbers id timeout k)).handed
