-- ===== src/Bus/Tests.antt =====
-- Runs of the message bus of pkg/queue/lockfree.go at concrete inputs, and the theorems at them.
use portask.Prelude.{
  ◌+◌, ◌^◌, ◌<◌, ◌≡◌, ◌≢◌, refl, Bool, true, false, Option, some, List, [], ◌∷◌, ◌++◌, arith,
}
use portask.Prelude.Maps.{nat_eq, list_eq, find}
use portask.Message.{PortaskMessage, new_message}
use portask.Queue.{
  LockFreeQueue, drop_oldest, drop_newest, new_lock_free_queue, round_capacity, next_power_of_2,
  smear_all,
}
use portask.Queue as Queue
use portask.Queue.Repr.{Holds}
use portask.Queue.Nodes.{publish-Holds}
use portask.Queue.Fresh.{fresh-Holds}
use portask.Bus.{
  MessageBus, Lane, high, normal, low, lane_queue, new_message_bus, publish, publish_to_priority,
}
use portask.Bus.Worker.{Worker}
use portask.Bus.Batches.{Waiting, BusHolds}
use portask.Bus.Publish.{Publishes, publish-Publishes}
use portask.Bus.Drain.{Drained, mega_process_keeps}
use portask.Bus.Topics.{TopicCall, publish_call, take_call, StaysShut, full_topic_refuses}

abbrev order : PortaskMessage
order = new_message (105 ∷ []) 1000 (111 ∷ []) (1 ∷ 2 ∷ 3 ∷ [])

abbrev two_places : MessageBus
two_places = record (new_message_bus 2 2 2 drop_newest) { running = true }

abbrev nothing : Waiting
nothing = record { high = []; normal = []; low = []; topics = [] }

two_nodes : round_capacity 2 ≡ 2 ^ 1
unfolding round_capacity next_power_of_2 smear_all
two_nodes = refl

two_places-BusHolds : BusHolds two_places nothing
unfolding new_message_bus
two_places-BusHolds =
    let h = fresh-Holds PortaskMessage 2 1 drop_newest two_nodes (omega arith) (omega arith) in
    record { high = (1, h); normal = (1, h); low = (1, h); topics = tt }

two_places-policy : (lane : Lane) → (lane_queue two_places lane).drop_policy ≢ drop_oldest
unfolding new_message_bus new_lock_free_queue
two_places-policy high e = cc e
two_places-policy normal e = cc e
two_places-policy low e = cc e

two_places-early : (lane : Lane) → (lane_queue two_places lane).enqueue_pos + 1 < 2 ^ 62
unfolding new_message_bus new_lock_free_queue
two_places-early high = omega arith
two_places-early normal = omega arith
two_places-early low = omega arith

publish-Publishes_example :
    Publishes order two_places nothing (publish order two_places)
    × Publishes
        (record order { priority = 9 })
        two_places
        nothing
        (publish_to_priority order 9 two_places)
publish-Publishes_example =
    publish-Publishes order 9 two_places nothing two_places-BusHolds refl two_places-policy
      two_places-early

-- A processor that keeps the messages, and one of its workers.
abbrev keep :
    List (Option PortaskMessage) → Option PortaskMessage → Bool × List (Option PortaskMessage)
keep log m = (false, log ++ m ∷ [])

abbrev idle : Worker (List (Option PortaskMessage))
idle = record { processor = []; messages_processed = 0; error_count = 0 }

-- A message waits in the queue of high priority.
abbrev one_high : MessageBus
one_high = record two_places {
  high_priority_queue =
      Queue.publish two_places.high_priority_queue two_places.high_priority_queue.enqueue_pos order;
}

abbrev one_waiting : Waiting
one_waiting = record nothing { high = order ∷ [] }

one_high-BusHolds : BusHolds one_high one_waiting
unfolding new_message_bus new_lock_free_queue Queue.publish
one_high-BusHolds =
    let h = fresh-Holds PortaskMessage 2 1 drop_newest two_nodes (omega arith) (omega arith) in
    record {
      high = (1, publish-Holds h order (omega arith) (omega arith));
      normal = (1, h);
      low = (1, h);
      topics = tt;
    }

mega_process_keeps_example : Drained keep idle one_high one_waiting
mega_process_keeps_example = mega_process_keeps keep idle one_high one_waiting one_high-BusHolds

-- A DropOldest queue of two places with two messages.
abbrev oldest : LockFreeQueue PortaskMessage
oldest = new_lock_free_queue PortaskMessage 2 drop_oldest

abbrev half_full : LockFreeQueue PortaskMessage
half_full = Queue.publish oldest oldest.enqueue_pos order

abbrev full : LockFreeQueue PortaskMessage
full = Queue.publish half_full half_full.enqueue_pos order

full-Holds : Holds full 1 (order ∷ order ∷ [])
unfolding new_lock_free_queue Queue.publish
full-Holds =
    publish-Holds
      (publish-Holds
        (fresh-Holds PortaskMessage 2 1 drop_oldest two_nodes (omega arith) (omega arith)) order
        (omega arith) (omega arith))
      order (omega arith) (omega arith)

full-policy : full.drop_policy ≡ drop_oldest
unfolding new_lock_free_queue Queue.publish
full-policy = refl

abbrev full_topic : MessageBus
full_topic = record two_places { topic_queues = (111 ∷ [], full) ∷ [] }

full_topic-found : find full_topic.topic_queues (111 ∷ []) ≡ some full
unfolding find
full_topic-found = refl

abbrev afterwards : List TopicCall
afterwards = take_call ∷ publish_call order ∷ take_call ∷ take_call ∷ publish_call order ∷ []

full_topic_refuses_example : StaysShut (111 ∷ []) full_topic (publish_call order ∷ afterwards)
full_topic_refuses_example =
    full_topic_refuses (111 ∷ []) full_topic full 1 (order ∷ order ∷ []) order afterwards refl
      full_topic-found full-Holds (omega arith) full-policy
