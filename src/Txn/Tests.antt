-- ===== src/Txn/Tests.antt =====
-- Runs of pkg/kafka/transactions.go at concrete inputs, and the theorems at them.
use portask.Prelude.{ℕ, ◌≡◌, refl, true, false, List, [], ◌∷◌, ◌++◌, some, map, arith}
use portask.Txn.Coordinator.{ongoing}
use portask.Txn.Manager.{
  TransactionManager, new_transaction_manager, begun, abort_transaction, cleanup, failed_to_abort,
}
use portask.Txn.Spec.{ManagerCall, init, begin, commit, abort, add, unused, run}
use portask.Txn.Calls.{call, calls, succeeded, Represents, manager_refines}
use portask.Txn.Stuck.{expired_wedges}
use portask.Txn.Producer.{
  TopicPartition, TransactionalMessage, TransactionalProducer, new_transactional_producer,
  sequence_number, send_to_transaction, flush_transaction,
}
use portask.Txn.Sequences.{
  ProducerCall, send, flush, on_manager, new_trace, steps, messages_of, flushed_of, taken_of,
  numbered, send_numbers,
}
use portask.Txn.Aborted.{aborted_messages_flushed}

abbrev orders : List ℕ
orders = 111 ∷ 114 ∷ []

abbrev two_transactions : List ManagerCall
two_transactions =
    init 1
    ∷ begin 2
    ∷ add 3 ((orders, 0 ∷ 1 ∷ []) ∷ [])
    ∷ begin 4
    ∷ commit 5
    ∷ init 6
    ∷ begin 7
    ∷ add 8 ((orders, 2 ∷ []) ∷ [])
    ∷ []

manager_refines_example :
    let (bs, tm) = calls (new_transaction_manager (116 ∷ []) 60000000000) two_transactions in
    let (bs', v) = run (0, unused) two_transactions in (bs ≡ bs') × Represents tm v
manager_refines_example = manager_refines (116 ∷ []) 60000000000 two_transactions

two_transactions-replies :
    (run (0, unused) two_transactions).0
    ≡ true ∷ true ∷ true ∷ false ∷ true ∷ true ∷ true ∷ true ∷ []
unfolding run
two_transactions-replies = refl

-- A manager with an open transaction that began at the time 10.
abbrev open_manager : TransactionManager
unfolding new_transaction_manager begun
open_manager = record (new_transaction_manager (116 ∷ []) 60000000000) {
  state = ongoing;
  coordinator = (116 ∷ [], begun 10 (new_transaction_manager (116 ∷ []) 60000000000)) ∷ [];
}

expired_wedges_example :
    let (e, tm') = abort_transaction 101 (cleanup 100 50 open_manager) in
    (e ≡ some failed_to_abort)
    × (calls tm' two_transactions ≡ (map (λ c. false) two_transactions, tm'))
unfolding new_transaction_manager begun
expired_wedges_example =
    expired_wedges 100 101 50 open_manager
      (begun 10 (new_transaction_manager (116 ∷ []) 60000000000)) two_transactions refl refl
      (omega arith)

abbrev note : TransactionalMessage
note = record { key = 1 ∷ []; value = 2 ∷ []; headers = []; timestamp = 9; sequence = 77 }

abbrev sends : List ProducerCall
sends =
    on_manager (begin 1)
    ∷ send 2 orders 0 note
    ∷ send 3 orders 1 note
    ∷ send 4 orders 0 note
    ∷ flush
    ∷ on_manager (commit 5)
    ∷ send 6 orders 0 note
    ∷ on_manager (begin 7)
    ∷ send 8 orders 0 note
    ∷ []

abbrev orders_0 : TopicPartition
orders_0 = record { topic = orders; partition = 0 }

send_numbers_example :
    let t = steps (new_trace (116 ∷ []) 60000000000) sends in
    flushed_of orders_0 t.flushed ++ messages_of orders_0 t.producer.batches
    ≡ numbered 0 (taken_of orders_0 t.taken)
send_numbers_example = send_numbers (116 ∷ []) 60000000000 sends orders_0

-- A producer whose manager has begun a transaction.
abbrev open_producer : TransactionalProducer
unfolding new_transactional_producer
open_producer = record (new_transactional_producer (116 ∷ []) 60000000000) {
  transaction_manager = (calls (new_transaction_manager (116 ∷ []) 60000000000) (begin 10 ∷ [])).1;
}

aborted_messages_flushed_example :
    let tp' = (send_to_transaction 11 orders 0 note open_producer).1 in
    let (aborted, tm') = call tp'.transaction_manager (abort 12) in
    let (started, tm'') = call tm' (begin 13) in
    let (batches, _) = flush_transaction (record tp' { transaction_manager = tm'' }) in
    (succeeded aborted ≡ true)
    × ((succeeded started ≡ true)
        × (messages_of orders_0 batches
            ≡ messages_of orders_0 open_producer.batches
              ++ record note { sequence = sequence_number open_producer orders_0 } ∷ []))
unfolding run open_producer calls
aborted_messages_flushed_example =
    aborted_messages_flushed open_producer 11 12 13 orders_0 note 0 0 (λ topic p. false)
      (manager_refines (116 ∷ []) 60000000000 (begin 10 ∷ [])).1
