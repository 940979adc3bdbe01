-- ===== src/Bus/Worker.antt =====
-- `Worker` of pkg/queue/lockfree.go: how it takes messages off the queues of the bus. The processor
-- is a parameter: from its state and the message, nil where it is `none`, it gives whether it fails
-- and its new state. Processing times are left out.
use portask.Prelude.{
  ℕ, zero, suc, ◌+◌, Bool, true, false, Option, none, some, List, [], ◌∷◌, if◌then◌else◌,
}
use portask.Message.{Text, PortaskMessage}
use portask.Queue.{add64, dequeue}
use portask.Bus.{Queue, MessageBus}

-- A worker with its statistics and its processor.
pub record Worker (P : Type 0) : Type 0 where
  pub processor : P
  pub messages_processed : ℕ
  pub error_count : ℕ

-- One more message in a count of messages.
unfoldable pub count_one : {S : Type 0} → Option (ℕ × S) → Option (ℕ × S)
count_one none = none
count_one (some (n, s)) = some (suc n, s)

module _ {P : Type 0} (process_message : P → Option PortaskMessage → Bool × P) where
  -- A message is processed and counted.
  unfoldable pub process : Option PortaskMessage → Worker P → Worker P
  process message w =
      let (fails, p) = process_message w.processor message in
      record {
        processor = p;
        messages_processed = add64 w.messages_processed 1;
        error_count = if fails then add64 w.error_count 1 else w.error_count;
      }

  unfoldable pub after_dequeue :
      Worker P
      → Option ((Option PortaskMessage × Bool) × Queue)
      → Option (Bool × (Worker P × Queue))
  after_dequeue w none = none
  after_dequeue w (some ((message, false), q)) = some (false, (w, q))
  after_dequeue w (some ((message, true), q)) = some (true, (process message w, q))

  -- `processFromQueue`
  unfoldable pub process_from_queue : Worker P → Queue → Option (Bool × (Worker P × Queue))
  process_from_queue w q = after_dequeue w (dequeue q)

  -- The inner loops: at most so many messages of a queue, with the number of those processed.
  unfoldable pub process_up_to : ℕ → Worker P → Queue → Option (ℕ × (Worker P × Queue))
  process_up_to zero w q = some (0, (w, q))
  process_up_to (suc i) w q = elim (process_from_queue w q) [
    | none ↦ none
    | some (false, (w', q')) ↦ some (0, (w', q'))
    | some (true, (w', q')) ↦ count_one (process_up_to i w' q')
  ]

  -- The loop over the topic queues, in the order in which Go's loop over the map takes them.
  unfoldable pub process_topics :
      Worker P → List (Text × Queue) → Option (ℕ × (Worker P × List (Text × Queue)))
  process_topics w [] = some (0, (w, []))
  process_topics w ((topic, q) ∷ queues) = elim (process_up_to 50 w q) [
    | none ↦ none
    | some (n, (w', q')) ↦ elim (process_topics w' queues) [
      | none ↦ none
      | some (n', (w'', queues')) ↦ some (n + n', (w'', (topic, q') ∷ queues'))
    ]
  ]

  -- One round of the outer loop: `messagesInBatch` and the bus it leaves.
  unfoldable pub process_batch : Worker P → MessageBus → Option (ℕ × (Worker P × MessageBus))
  process_batch w mb = elim (process_up_to 50 w mb.high_priority_queue) [
    | none ↦ none
    | some (h, (w1, high)) ↦ elim (process_up_to 100 w1 mb.normal_priority_queue) [
      | none ↦ none
      | some (n, (w2, normal)) ↦ elim (process_up_to 25 w2 mb.low_priority_queue) [
        | none ↦ none
        | some (l, (w3, low)) ↦ elim (process_topics w3 mb.topic_queues) [
          | none ↦ none
          | some (t, (w4, topics)) ↦ some (
            h + n + l + t,
            (
              w4,
              record mb {
                high_priority_queue = high;
                normal_priority_queue = normal;
                low_priority_queue = low;
                topic_queues = topics;
              },
            ),
          )
        ]
      ]
    ]
  ]

  -- The outer loop with so many batches left, and whether it processed anything.
  unfoldable pub process_batches :
      ℕ → Worker P → MessageBus → Option (Bool × (Worker P × MessageBus))
  process_batches zero w mb = some (false, (w, mb))
  process_batches (suc batches) w mb = elim (process_batch w mb) [
    | none ↦ none
    | some (zero, s) ↦ some (false, s)
    | some (suc n, (w', mb')) ↦ elim (process_batches batches w' mb') [
      | none ↦ none
      | some (any, s) ↦ some (true, s)
    ]
  ]

  -- `megaProcessAllAvailableMessages`
  unfoldable pub mega_process_all_available_messages :
      Worker P → MessageBus → Option (Bool × (Worker P × MessageBus))
  mega_process_all_available_messages w mb = process_batches 100 w mb
