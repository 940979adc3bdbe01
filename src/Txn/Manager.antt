-- ===== src/Txn/Manager.antt =====
-- `TransactionManager` of pkg/kafka/transactions.go: each operation gives the error that it returns,
-- `none` for nil, and the new manager.
use portask.Prelude.{ℕ, ◌/◌, ◌%◌, ◌^◌, true, false, Option, none, some, List, []}
use portask.Txn.Coordinator.{
  TransactionState, empty, ongoing, prepare_commit, prepare_abort, TransactionMetadata,
  Transactions, new_transaction_coordinator, init_producer_id, add_transaction,
  add_partitions_to_transaction, end_transaction, cleanup_expired_transactions,
}

pub record TransactionManager : Type 0 where
  pub transactional_id : List ℕ
  pub producer_id : ℕ
  pub producer_epoch : ℕ
  pub timeout : ℕ
  pub state : TransactionState
  pub coordinator : Transactions

pub data TxnError : Type 0 where
  already_initialized already_in_progress no_ongoing : TransactionState → TxnError
  nothing_to_commit nothing_to_abort : TransactionState → TxnError
  failed_to_commit failed_to_abort transaction_not_found no_ongoing_transaction : TxnError

-- `NewTransactionManager`
unfoldable pub new_transaction_manager : List ℕ → ℕ → TransactionManager
new_transaction_manager id timeout = record {
  transactional_id = id;
  producer_id = 0;
  producer_epoch = 0;
  timeout = timeout;
  state = empty;
  coordinator = new_transaction_coordinator;
}

abbrev pub Outcome : Type 0
Outcome = Option TxnError × TransactionManager

-- `InitTransactions`
unfoldable pub init_transactions : ℕ → TransactionManager → Outcome
init_transactions now tm = elim tm.state [
  | empty ↦
      let (producer_id, epoch) = init_producer_id now tm.transactional_id tm.coordinator in
      (none, record tm { producer_id = producer_id; producer_epoch = epoch; state = empty })
  | s ↦ (some (already_initialized s), tm)
]

-- The metadata that `BeginTransaction` makes.
unfoldable pub begun : ℕ → TransactionManager → TransactionMetadata
begun now tm = record {
  transactional_id = tm.transactional_id;
  producer_id = tm.producer_id;
  producer_epoch = tm.producer_epoch;
  state = ongoing;
  topic_partitions = [];
  txn_start_timestamp = now;
  txn_timeout_ms = tm.timeout / 1000000 % 2 ^ 32;
  last_update_time = now;
}

-- `BeginTransaction`
unfoldable pub begin_transaction : ℕ → TransactionManager → Outcome
begin_transaction now tm = elim tm.state [
  | empty ↦ (
    none,
    record tm { coordinator = add_transaction (begun now tm) tm.coordinator; state = ongoing },
  )
  | s ↦ (some (already_in_progress s), tm)
]

-- `AddPartitionsToTxn`
unfoldable pub add_partitions_to_txn : ℕ → List (List ℕ × List ℕ) → TransactionManager → Outcome
add_partitions_to_txn now request tm = elim tm.state [
  | ongoing ↦ elim (add_partitions_to_transaction now tm.transactional_id request tm.coordinator) [
    | none ↦ (some transaction_not_found, tm)
    | some tc ↦ (none, record tm { coordinator = tc })
  ]
  | s ↦ (some (no_ongoing s), tm)
]

-- What follows the call of `EndTransaction` in `CommitTransaction` and in `AbortTransaction`.
unfoldable pub after_commit : TransactionManager → Option Transactions → Outcome
after_commit tm none = (some failed_to_commit, record tm { state = ongoing })
after_commit tm (some tc) = (none, record tm { coordinator = tc; state = empty })

unfoldable pub after_abort : TransactionManager → Option Transactions → Outcome
after_abort tm none = (some failed_to_abort, tm)
after_abort tm (some tc) = (none, record tm { coordinator = tc; state = empty })

-- `CommitTransaction`
unfoldable pub commit_transaction : ℕ → TransactionManager → Outcome
commit_transaction now tm = elim tm.state [
  | ongoing ↦
      after_commit (record tm { state = prepare_commit })
        (end_transaction now tm.transactional_id true tm.coordinator)
  | s ↦ (some (nothing_to_commit s), tm)
]

abbrev pub start_abort : ℕ → TransactionManager → Outcome
unfolding after_abort
start_abort now tm =
    after_abort (record tm { state = prepare_abort })
      (end_transaction now tm.transactional_id false tm.coordinator)

-- `AbortTransaction`
unfoldable pub abort_transaction : ℕ → TransactionManager → Outcome
abort_transaction now tm = elim tm.state [
  | ongoing ↦ start_abort now tm
  | prepare_commit ↦ start_abort now tm
  | s ↦ (some (nothing_to_abort s), tm)
]

-- The coordinator's cleanup, which changes the manager's coordinator and nothing else.
unfoldable pub cleanup : ℕ → ℕ → TransactionManager → TransactionManager
cleanup now max_age tm = record tm {
  coordinator = cleanup_expired_transactions now max_age tm.coordinator;
}
