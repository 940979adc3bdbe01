-- ===== src/Groups.antt =====
-- Consumer groups: pkg/kafka/consumer_groups.go and pkg/kafka/group_coordinator.go. A text or byte
-- slice is the list of its bytes, a time or duration its nanoseconds, an int32 its bits, and a map an
-- association list in the order in which Go's loops take it.
pub mod Slices
pub mod Assign
pub mod Counts
pub mod Ranges
pub mod Names
pub mod Turns
pub mod Complete
pub mod Assignors
pub mod Coordinator
pub mod Leaders
pub mod Calls
pub mod Sync
pub mod Delivered
pub mod Classic
pub mod Rebalance
mod Tests
use portask.Prelude.{ℕ, ◌+◌, ◌%◌, ◌^◌, List, [], ◌∷◌}
use portask.Txn.Producer.{TopicPartition}

abbrev pub Text : Type 0
Text = List ℕ

-- `ConsumerGroupStateEnum`
pub data GroupState : Type 0 where
  unknown preparing_rebalance completing_rebalance stable dead empty : GroupState

pub record GroupMember : Type 0 where
  pub id : Text
  pub client_id : Text
  pub client_host : Text
  pub session_timeout : ℕ
  pub rebalance_timeout : ℕ
  pub metadata : List ℕ
  pub joined_at : ℕ
  pub last_heartbeat : ℕ

abbrev pub Members : Type 0
Members = List (Text × GroupMember)

-- `ConsumerGroup`, without the metadata of protocols, which nothing writes.
pub record ConsumerGroup : Type 0 where
  pub id : Text
  pub members : Members
  pub state : GroupState
  pub protocol : Text
  pub leader : Text
  pub generation : ℕ
  pub assignments : List (Text × List TopicPartition)
  pub offsets : List (TopicPartition × ℕ)
  pub session_timeout : ℕ
  pub rebalance_timeout : ℕ
  pub created_at : ℕ
  pub last_heartbeat : ℕ

-- `Generation++`
abbrev pub next_generation : ℕ → ℕ
next_generation g = (g + 1) % 2 ^ 32
