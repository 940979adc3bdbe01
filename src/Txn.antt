-- ===== src/Txn.antt =====
-- pkg/kafka/transactions.go: the state of a transaction manager and of its coordinator. A text is
-- the list of its bytes, a time its nanoseconds, and an int16 or int32 its bits.
pub mod Coordinator
pub mod Manager
pub mod Producer
pub mod Partitions
pub mod Spec
pub mod Calls
pub mod Stuck
pub mod Sequences
pub mod Aborted
pub mod Tests
