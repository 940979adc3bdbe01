-- ===== src/Writer.antt =====
-- `BatchWriter` of pkg/processor/batch_writer.go, over a storage of any kind: `store_batch` tells
-- whether it fails, and gives the new storage. The writer does not look into its messages. Times are
-- left out; a number of retries below zero too. Calls run one after another, as under the writer's lock.
pub mod Calls
pub mod Preserves
use portask.Prelude.{
  ℕ, zero, suc, ◌+◌, ◌%◌, ◌^◌, Bool, true, false, if◌then◌else◌, leb, List, [], ◌∷◌, ◌++◌, length,
}

-- `BatchWriter` with its configuration.
pub record BatchWriter (M S : Type 0) : Type 0 where
  pub storage : S
  pub batch_size : ℕ
  pub max_retries : ℕ
  pub buffer : List M
  pub message_count : ℕ
  pub batch_count : ℕ
  pub running : Bool

module _ {M S : Type 0} where
  -- `NewBatchWriter`
  unfoldable pub new_batch_writer : S → ℕ → ℕ → BatchWriter M S
  new_batch_writer storage batch_size max_retries = record {
    storage = storage;
    batch_size = batch_size;
    max_retries = max_retries;
    buffer = [];
    message_count = 0;
    batch_count = 0;
    running = false;
  }

  -- `Start`: whether it fails.
  unfoldable pub start : BatchWriter M S → Bool × BatchWriter M S
  start w = (w.running, record w { running = true })

module _ {M S : Type 0} (store_batch : S → List M → Bool × S) where
  -- The loop of `flushLocked`, with `retries` attempts after this one.
  unfoldable pub attempts : ℕ → S → List M → Bool × S
  attempts zero s batch = store_batch s batch
  attempts (suc retries) s batch =
      let (fails, s') = store_batch s batch in
      let again = attempts retries s' batch in if fails then again else (false, s')

  unfoldable pub after_attempts : Bool × S → BatchWriter M S → Bool × BatchWriter M S
  after_attempts (true, s) w = (true, record w { storage = s })
  after_attempts (false, s) w =
      (false, record w { storage = s; batch_count = (w.batch_count + 1) % 2 ^ 64; buffer = [] })

  unfoldable pub flush_batch : List M → BatchWriter M S → Bool × BatchWriter M S
  flush_batch [] w = (false, w)
  flush_batch (m ∷ batch) w = after_attempts (attempts w.max_retries w.storage (m ∷ batch)) w

  -- `flushLocked`
  unfoldable pub flush_locked : BatchWriter M S → Bool × BatchWriter M S
  flush_locked w = flush_batch w.buffer w

  -- `Write`
  unfoldable pub write : M → BatchWriter M S → Bool × BatchWriter M S
  write m w =
      let w' = record w {
        buffer = w.buffer ++ m ∷ [];
        message_count = (w.message_count + 1) % 2 ^ 64;
      } in
      if leb w.batch_size (length w'.buffer) then flush_locked w' else (false, w')

  -- A tick of `flushLoop`, which forgets the error.
  unfoldable pub tick : BatchWriter M S → BatchWriter M S
  tick w = (flush_locked w).1

  -- `Stop`
  unfoldable pub stop : BatchWriter M S → Bool × BatchWriter M S
  stop w = if w.running then flush_locked (record w { running = false }) else (false, w)
