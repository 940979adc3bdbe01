-- ===== src/Kafka.antt =====
-- The Kafka front end: its requests, its bridge to the batch writer and its log in memory. A text or
-- byte slice is the list of its bytes; an int16, int32 or int64 is its bits.
pub mod Log
pub mod History
pub mod Views
pub mod Fetches
pub mod Bridge
pub mod Partitions
pub mod Poison
pub mod Retries
pub mod Stored
pub mod Flushes
pub mod Requests
pub mod Answers
pub mod Produce
pub mod Clients
pub mod Produced
mod Tests
mod WireTests
use portask.Prelude.{ℕ, List}

abbrev pub Text : Type 0
Text = List ℕ
