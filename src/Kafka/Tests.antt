-- ===== src/Kafka/Tests.antt =====
-- Tests of the Kafka front end.
use portask.Prelude.{◌≤◌, ℕ, true, false, ◌++◌, ◌≡◌, refl, ◌^◌, ◌-◌, List, [], ◌∷◌, drop, arith}
use portask.Kafka.{Text}
use portask.Kafka.Log.{
  empty_partitions, Message, new_in_memory_message_store, panic, ok, consume_messages,
}
use portask.Kafka.History.{
  Call, creates, produces, asks, deletes, run_calls, Entry, number, step, history, view,
}
use portask.Prelude.Maps.{find}
use portask.Message.{PortaskMessage, new_message, reset}
use portask.Processor.{ProcessorConfig, zstd, Task}
use portask.Kafka.Bridge.{new_processor_bridge}
use portask.Kafka.Partitions.{Event, request, tick_at, create, run_events, Blank, run_events-Blank}
use portask.Writer.{BatchWriter, new_batch_writer, start, stop}
use portask.Writer.Calls.{writes, ticks, written}
use portask.Kafka.Bridge.{store_batch, ProcessorBridge}
use portask.Kafka.Stored.{log, sent_to}
use portask.Kafka.Flushes.{run_calls-log}
use portask.Kafka.Poison.{Exists, AllExist, Missing, size, share}
use portask.Kafka.Retries.{tick_count, run_calls_jammed}
use portask.Kafka.Fetches.{bytes, Fetched, consume-history}

abbrev orders : Text
orders = 111 ∷ []

-- A topic that is deleted and asked for again.
abbrev produce_calls : List Call
produce_calls =
    creates orders 2
    ∷ produces orders 0 [] (1 ∷ 2 ∷ 3 ∷ []) 10
    ∷ deletes orders
    ∷ asks (orders ∷ [])
    ∷ produces orders 0 [] (4 ∷ 5 ∷ []) 11
    ∷ produces orders 1 [] (6 ∷ []) 12
    ∷ produces orders 0 (7 ∷ []) (8 ∷ 9 ∷ []) 13
    ∷ []

abbrev kept_entries : List Entry
kept_entries =
    record { key = []; value = 4 ∷ 5 ∷ []; timestamp = 11 }
    ∷ record { key = 7 ∷ []; value = 8 ∷ 9 ∷ []; timestamp = 13 }
    ∷ []

consume-history_example :
    let s = run_calls produce_calls new_in_memory_message_store in
    (consume_messages orders 0 (2 ^ 64 - 1) 3 s ≡ panic)
    × ((result : List Message) × (consume_messages orders 0 0 3 s ≡ ok result)
        × Fetched 3 (drop 0 (number 0 kept_entries)) result)
unfolding history number bytes step
consume-history_example =
    consume-history produce_calls orders 0 0 (2 ^ 64 - 1) 3 kept_entries refl (omega arith)
      (omega arith) (omega arith) (omega arith)

abbrev fast : ProcessorConfig
fast = record { enable_compression = true; compression_algorithm = zstd; enable_zero_copy = true }

-- A text is its own runes, and a number is printed as one digit.
abbrev same_runes : Text → List ℕ
same_runes t = t

abbrev one_digit : ℕ → Text
one_digit n = n ∷ []

abbrev pooled_task : Task
pooled_task = (reset (new_message [] 0 [] []), true)

-- Two requests to a topic with two partitions, one for each.
abbrev two_requests : List Event
two_requests =
    create orders 2
    ∷ request true pooled_task 1 10 orders 1 (1 ∷ 2 ∷ [])
    ∷ request true pooled_task 2 11 orders 0 (3 ∷ [])
    ∷ tick_at 12
    ∷ []

run_events-Blank_example : Blank 1 (
    view orders 1
      (run_events same_runes one_digit fast two_requests
        (new_processor_bridge new_in_memory_message_store)).storage)
run_events-Blank_example =
    run_events-Blank same_runes one_digit fast two_requests orders 1 (omega arith)

abbrev to_orders : PortaskMessage
to_orders = new_message (49 ∷ []) 10 orders (1 ∷ 2 ∷ [])

abbrev to_nowhere : PortaskMessage
to_nowhere = new_message (50 ∷ []) 11 (110 ∷ []) (3 ∷ [])

abbrev jammed_bridge : ProcessorBridge
jammed_bridge = record {
  storage = (orders, record { name = orders; partitions = empty_partitions 1 0 }) ∷ [];
  batch_size = 1000;
  max_retries = 3;
  buffer = to_orders ∷ to_nowhere ∷ [];
  message_count = 2;
  batch_count = 0;
  running = true;
}

abbrev two_ticks : List (portask.Writer.Calls.Call PortaskMessage)
two_ticks = ticks ∷ writes to_orders ∷ ticks ∷ []

-- Three writes with a batch size of 2, and ticks in between.
abbrev some_writes : List (portask.Writer.Calls.Call PortaskMessage)
some_writes = writes to_orders ∷ ticks ∷ writes to_orders ∷ writes to_orders ∷ []

run_calls-log_example :
    let b =
      portask.Writer.Calls.run_calls
        (store_batch 12)
        some_writes
        (start (new_batch_writer jammed_bridge.storage 2 3)).1 in
    let out = stop (store_batch 12) b in
    let all = log orders 0 jammed_bridge.storage ++ sent_to orders 0 (written some_writes) in
    (log orders 0 b.storage ++ sent_to orders 0 b.buffer ≡ all)
    × (out.0 ≡ false)
    × (log orders 0 out.1.storage ≡ all)
    × (out.1.buffer ≡ [])
unfolding written AllExist Exists find new_message empty_partitions
run_calls-log_example =
    run_calls-log orders 0 12 jammed_bridge.storage 2 3 some_writes
      ((_, refl), ((_, refl), ((_, refl), tt)))

run_calls_jammed_example :
    let b' = portask.Writer.Calls.run_calls (store_batch 12) two_ticks jammed_bridge in
    (b'.buffer ≡ to_orders ∷ to_nowhere ∷ to_orders ∷ [])
    × Missing b'.storage (110 ∷ [])
    × (8 ≤ size orders 0 b'.storage)
    × ((stop (store_batch 12) b').0 ≡ true)
unfolding written tick_count share size AllExist Exists Missing find new_message empty_partitions
run_calls_jammed_example =
    run_calls_jammed orders 0 (to_orders ∷ []) [] to_nowhere 12 two_ticks jammed_bridge refl refl
      ((_, refl), tt) refl
