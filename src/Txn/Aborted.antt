-- ===== src/Txn/Aborted.antt =====
-- What becomes of the messages of an aborted transaction (pkg/kafka/transactions.go): the manager's
-- `AbortTransaction` does not touch the producer's batches.
use portask.Prelude.{ℕ, ◌≡◌, refl, sym, ap, ◌∙◌, Bool, true, false, subst, List, [], ◌∷◌, ◌++◌}
use portask.Txn.Manager.{add_partitions_to_txn}
use portask.Txn.Spec.{begin, abort, add, open_with, ended, answer}
use portask.Txn.Calls.{call, succeeded, Represents, call-Answers}
use portask.Txn.Producer.{
  TopicPartition, TransactionalMessage, TransactionalProducer, sequence_number, take_message,
  is_ongoing, send_to_transaction, flush_transaction,
}
use portask.Txn.Sequences.{messages_of, take_message_self}
use portask.Txn.Coordinator.{ongoing}

-- The request of one partition.
abbrev request_of : TopicPartition → List (List ℕ × List ℕ)
request_of k = (k.topic, k.partition ∷ []) ∷ []

send-ongoing :
    (tp : TransactionalProducer) (now : ℕ) (k : TopicPartition) (message : TransactionalMessage)
    → tp.transaction_manager.state ≡ ongoing
    → (send_to_transaction now k.topic k.partition message tp).1
      ≡ record (take_message k message tp) {
        transaction_manager = (add_partitions_to_txn now (request_of k) tp.transaction_manager).1;
      }
unfolding send_to_transaction is_ongoing
send-ongoing tp now k message h = rw (ap is_ongoing h) refl

-- When a producer whose transaction is open sends a message and the transaction is aborted, the
-- abort succeeds, the next `BeginTransaction` succeeds, and a flush in the new transaction hands
-- over the messages of the aborted one, the sent message last.
pub aborted_messages_flushed :
    (tp : TransactionalProducer) (now now' now'' : ℕ) (k : TopicPartition)
    (message : TransactionalMessage) (epoch last : ℕ) (set : List ℕ → ℕ → Bool)
    → Represents tp.transaction_manager (epoch, open_with last set)
    → let tp' = (send_to_transaction now k.topic k.partition message tp).1 in
      let (aborted, tm') = call tp'.transaction_manager (abort now') in
      let (begun, tm'') = call tm' (begin now'') in
      let (batches, _) = flush_transaction (record tp' { transaction_manager = tm'' }) in
      (succeeded aborted ≡ true)
      × ((succeeded begun ≡ true)
          × (messages_of k batches
              ≡ messages_of k tp.batches
                ++ record message { sequence = sequence_number tp k } ∷ []))
unfolding flush_transaction call
aborted_messages_flushed tp now now' now'' k message epoch last set r =
    let e = send-ongoing tp now k message r.phase.0 in
    let v = answer (epoch, open_with last set) (add now (request_of k)) in
    let a =
      call-Answers tp.transaction_manager (epoch, open_with last set) (add now (request_of k)) r in
    let tm = (send_to_transaction now k.topic k.partition message tp).1.transaction_manager in
    let b =
      call-Answers tm v.1 (abort now')
        (subst (λ p. Represents p.transaction_manager v.1) (sym e) a.next) in
    let d = call-Answers (call tm (abort now')).1 (epoch, ended last false) (begin now'') b.next in
    (b.reply, (d.reply, ap (λ p. messages_of k p.batches) e ∙ (take_message_self k message tp).0))
