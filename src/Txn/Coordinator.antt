-- ===== src/Txn/Coordinator.antt =====
-- `TransactionCoordinator` of pkg/kafka/transactions.go. A text is the list of its bytes, a time its
-- nanoseconds, and an int16 or int32 its bits. A request lists its topics in the order in which the
-- loop takes them.
use portask.Prelude.{
  ℕ, ◌+◌, ◌-◌, ◌%◌, ◌^◌, Bool, if◌then◌else◌, ltb, Option, none, some, List, [], ◌∷◌, ◌++◌,
}
use portask.Prelude.Maps.{nat_eq, list_eq, contains, find, put}

-- `TransactionState` of pkg/kafka/consumer_groups.go, in its order.
pub data TransactionState : Type 0 where
  empty ongoing complete_commit complete_abort preparing_rebalance : TransactionState
  preparing_commit committing_txn preparing_abort completing_abort : TransactionState
  prepare_commit prepare_abort dead : TransactionState

pub record TransactionMetadata : Type 0 where
  pub transactional_id : List ℕ
  pub producer_id : ℕ
  pub producer_epoch : ℕ
  pub state : TransactionState
  pub topic_partitions : List (List ℕ × List ℕ)
  pub txn_start_timestamp : ℕ
  pub txn_timeout_ms : ℕ
  pub last_update_time : ℕ

-- `map[string]*TransactionMetadata`
abbrev pub Transactions : Type 0
Transactions = List (List ℕ × TransactionMetadata)

-- `NewTransactionCoordinator`
abbrev pub new_transaction_coordinator : Transactions
new_transaction_coordinator = []

-- `InitProducerID` at the time `now`: the new producer id and epoch.
unfoldable pub init_producer_id : ℕ → List ℕ → Transactions → ℕ × ℕ
init_producer_id now id tc = elim (find tc id) [
  | none ↦ (now, 0)
  | some existing ↦ (now, (existing.producer_epoch + 1) % 2 ^ 16)
]

-- `AddTransaction`, which never fails.
unfoldable pub add_transaction : TransactionMetadata → Transactions → Transactions
add_transaction metadata tc = put tc metadata.transactional_id metadata

-- The loop over `merged` with its `seen` partitions.
unfoldable pub unique_partitions : List ℕ → List ℕ → List ℕ
unique_partitions seen [] = []
unique_partitions seen (p ∷ merged) =
    let fresh = unique_partitions (p ∷ seen) merged in
    let rest = unique_partitions seen merged in if contains seen p then rest else p ∷ fresh

-- What a topic's list becomes: the first list of a topic is kept as it is.
unfoldable pub merge_list : Option (List ℕ) → List ℕ → List ℕ
merge_list none partition_list = partition_list
merge_list (some existing) partition_list = unique_partitions [] (existing ++ partition_list)

unfoldable pub merge_partitions :
    List (List ℕ × List ℕ) → List (List ℕ × List ℕ) → List (List ℕ × List ℕ)
merge_partitions have [] = have
merge_partitions have ((topic, partition_list) ∷ request) =
    merge_partitions (put have topic (merge_list (find have topic) partition_list)) request

-- `AddPartitionsToTransaction`; `none` is the error of a transaction that is not found.
unfoldable pub add_partitions_to_transaction :
    ℕ → List ℕ → List (List ℕ × List ℕ) → Transactions → Option Transactions
add_partitions_to_transaction now id request tc = elim (find tc id) [
  | none ↦ none
  | some metadata ↦ some (
      put tc id (record metadata {
        topic_partitions = merge_partitions metadata.topic_partitions request;
        last_update_time = now;
      }))
]

-- `EndTransaction`
unfoldable pub end_transaction : ℕ → List ℕ → Bool → Transactions → Option Transactions
end_transaction now id commit tc = elim (find tc id) [
  | none ↦ none
  | some metadata ↦ some (
      put tc id (record metadata {
        state = if commit then complete_commit else complete_abort;
        last_update_time = now;
      }))
]

-- `GetTransactionState`
unfoldable pub get_transaction_state : List ℕ → Transactions → Option TransactionState
get_transaction_state id tc = elim (find tc id) [
  | none ↦ none
  | some metadata ↦ some metadata.state
]

-- `CleanupExpiredTransactions`, for a `maxAge` that is not negative.
unfoldable pub cleanup_expired_transactions : ℕ → ℕ → Transactions → Transactions
cleanup_expired_transactions now max_age [] = []
cleanup_expired_transactions now max_age ((id, metadata) ∷ tc) =
    let rest = cleanup_expired_transactions now max_age tc in
    if ltb max_age (now - metadata.last_update_time) then rest else (id, metadata) ∷ rest
