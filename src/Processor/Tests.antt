-- ===== src/Processor/Tests.antt =====
-- Tests of the processor.
use portask.Prelude.{ℕ, true, false, List, [], ◌∷◌}
use portask.Message.{Text, new_message}
use portask.Processor.{ProcessorConfig, zstd, Task, process_batch_messages}
use portask.Processor.Results.{Batched, process_batch_messages-Batched}

-- A text is its own runes, and a number is printed as one digit.
abbrev same_runes : Text → List ℕ
same_runes t = t

abbrev one_digit : ℕ → Text
one_digit n = n ∷ []

abbrev no_copy : ProcessorConfig
no_copy = record {
  enable_compression = true;
  compression_algorithm = zstd;
  enable_zero_copy = false;
}

abbrev two_tasks : List Task
two_tasks =
    (new_message (49 ∷ []) 10 (111 ∷ []) (1 ∷ 2 ∷ []), false)
    ∷ (new_message (50 ∷ []) 11 [] (3 ∷ []), false)
    ∷ []

process_batch_messages-Batched_example :
    Batched same_runes one_digit no_copy two_tasks
      (process_batch_messages same_runes one_digit no_copy two_tasks)
process_batch_messages-Batched_example =
    process_batch_messages-Batched same_runes one_digit no_copy two_tasks
