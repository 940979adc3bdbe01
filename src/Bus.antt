-- ===== src/Bus.antt =====
-- `MessageBus` of pkg/queue/lockfree.go: three priority queues, a queue for each topic, and what
-- publishing does. Calls run one after another. A result `none` is a panic of a queue. The
-- channels that wake workers are counters of their tokens; the rates of `statsCollector` and the
-- time of the last update are left out.
pub mod Worker
pub mod Lanes
mod Offers
pub mod Publish
pub mod Batches
pub mod Drain
pub mod Topics
mod Tests
use portask.Prelude.{
  ℕ, ◌+◌, Bool, true, false, Option, none, some, List, [], ◌∷◌, ltb, ◌==◌, if◌then◌else◌, map,
}
use portask.Prelude.Maps.{nat_eq, list_eq, find, put}
use portask.Message.{Text, PortaskMessage, priority_high, priority_low, get_size}
use portask.Queue.{
  LockFreeQueue, DropPolicy, drop_oldest, drop_newest, block, add64, count_drop, enqueue,
  try_force_enqueue_drop_oldest, new_lock_free_queue,
}

abbrev pub Queue : Type 0
Queue = LockFreeQueue PortaskMessage

-- `MessageBus`. `workers` are the tokens in the channels of `mb.workers`, each of at most one;
-- `worker_notify` are those in the channel of the bus, at most 1000.
pub record MessageBus : Type 0 where
  pub high_priority_queue : Queue
  pub normal_priority_queue : Queue
  pub low_priority_queue : Queue
  pub topic_queues : List (Text × Queue)
  pub workers : List ℕ
  pub worker_notify : ℕ
  pub running : Bool
  pub total_messages : ℕ
  pub total_bytes : ℕ
  pub topic_stats : List (Text × ℕ)

pub data BusError : Type 0 where
  not_running already_running queue_full topic_queue_full : BusError

-- `NewMessageBus`, which leaves `workers` nil.
unfoldable pub new_message_bus : ℕ → ℕ → ℕ → DropPolicy → MessageBus
new_message_bus high normal low policy = record {
  high_priority_queue = new_lock_free_queue PortaskMessage high policy;
  normal_priority_queue = new_lock_free_queue PortaskMessage normal policy;
  low_priority_queue = new_lock_free_queue PortaskMessage low policy;
  topic_queues = [];
  workers = [];
  worker_notify = 0;
  running = false;
  total_messages = 0;
  total_bytes = 0;
  topic_stats = [];
}

-- `Start` and `Stop`, the flag of the bus only.
unfoldable pub start : MessageBus → Option BusError × MessageBus
start mb = if mb.running then (some already_running, mb) else (none, record mb { running = true })

unfoldable pub stop : MessageBus → MessageBus
stop mb = if mb.running then record mb { running = false } else mb

pub data Lane : Type 0 where
  high normal low : Lane

-- The switch on the priority.
unfoldable pub lane_of : ℕ → Lane
lane_of p = if p == priority_high then high else if p == priority_low then low else normal

abbrev pub lane_queue : MessageBus → Lane → Queue
lane_queue mb high = mb.high_priority_queue
lane_queue mb normal = mb.normal_priority_queue
lane_queue mb low = mb.low_priority_queue

abbrev pub set_lane : MessageBus → Lane → Queue → MessageBus
set_lane mb high q = record mb { high_priority_queue = q }
set_lane mb normal q = record mb { normal_priority_queue = q }
set_lane mb low q = record mb { low_priority_queue = q }

-- What becomes of a message that is offered to a queue.
pub data Offered : Type 0 where
  accepted forced dropped refused : Offered

-- What follows a failed `Enqueue` under `DropOldest`.
unfoldable pub after_force : Option (Bool × Queue) → Option (Offered × Queue)
after_force none = none
after_force (some (true, q)) = some (forced, q)
after_force (some (false, q)) = some (dropped, count_drop q)

unfoldable pub after_enqueue : PortaskMessage → Option (Bool × Queue) → Option (Offered × Queue)
after_enqueue m none = none
after_enqueue m (some (true, q)) = some (accepted, q)
after_enqueue m (some (false, q)) = elim q.drop_policy [
  | drop_oldest ↦ after_force (try_force_enqueue_drop_oldest q m)
  | drop_newest ↦ some (refused, q)
  | block ↦ some (refused, q)
]

-- The attempt to enqueue in `Publish` and `PublishToPriority`.
unfoldable pub offer : PortaskMessage → Queue → Option (Offered × Queue)
offer m q = after_enqueue m (enqueue q m)

-- `notifyWorkers`
unfoldable pub notify_workers : MessageBus → MessageBus
notify_workers mb = record mb {
  workers = map (λ tokens. 1) mb.workers;
  worker_notify = if ltb mb.worker_notify 1000 then mb.worker_notify + 1 else mb.worker_notify;
}

-- The two statistics that every publish updates.
unfoldable pub count_message : ℕ → MessageBus → MessageBus
count_message size mb = record mb {
  total_messages = add64 mb.total_messages 1;
  total_bytes = add64 mb.total_bytes size;
}

-- The return of a publish to a lane; `wake` is what an accepted message does besides.
unfoldable pub finish_offer :
    (MessageBus → MessageBus)
    → Lane
    → MessageBus
    → Option (Offered × Queue)
    → Option (Option BusError × MessageBus)
finish_offer wake lane mb none = none
finish_offer wake lane mb (some (accepted, q)) = some (none, wake (set_lane mb lane q))
finish_offer wake lane mb (some (forced, q)) = some (none, set_lane mb lane q)
finish_offer wake lane mb (some (dropped, q)) = some (none, set_lane mb lane q)
finish_offer wake lane mb (some (refused, q)) = some (some queue_full, set_lane mb lane q)

unfoldable pub publish_on :
    (MessageBus → MessageBus) → PortaskMessage → MessageBus → Option (Option BusError × MessageBus)
publish_on wake m mb =
    let (size, m') = get_size m in
    let lane = lane_of m.priority in
    finish_offer wake lane (count_message size mb) (offer m' (lane_queue mb lane))

-- `Publish`
unfoldable pub publish : PortaskMessage → MessageBus → Option (Option BusError × MessageBus)
publish m mb = if mb.running then publish_on notify_workers m mb else some (some not_running, mb)

-- `PublishToPriority`
unfoldable pub publish_to_priority :
    PortaskMessage → ℕ → MessageBus → Option (Option BusError × MessageBus)
publish_to_priority m p mb =
    if mb.running
    then publish_on (λ bus. bus) (record m { priority = p }) mb
    else some (some not_running, mb)

-- `getOrCreateTopicQueue`: the queue, which the map holds afterwards.
abbrev pub or_new_queue : Option Queue → Queue
or_new_queue none = new_lock_free_queue PortaskMessage 1000 drop_oldest
or_new_queue (some q) = q

unfoldable pub get_or_create_topic_queue : Text → MessageBus → Queue
get_or_create_topic_queue topic mb = or_new_queue (find mb.topic_queues topic)

unfoldable pub count_topic : Text → MessageBus → MessageBus
count_topic topic mb = record mb {
  topic_stats = elim (find mb.topic_stats topic) [
    | none ↦ put mb.topic_stats topic 1
    | some count ↦ put mb.topic_stats topic (add64 count 1)
  ];
}

unfoldable pub finish_topic :
    Text → MessageBus → Option (Bool × Queue) → Option (Option BusError × MessageBus)
finish_topic topic mb none = none
finish_topic topic mb (some (true, q)) =
    some (none, record mb { topic_queues = put mb.topic_queues topic q })
finish_topic topic mb (some (false, q)) =
    some (some topic_queue_full, record mb { topic_queues = put mb.topic_queues topic q })

-- `PublishToTopic`
unfoldable pub publish_to_topic :
    PortaskMessage → MessageBus → Option (Option BusError × MessageBus)
publish_to_topic m mb =
    if mb.running
    then (let (size, m') = get_size m in
        finish_topic m.topic (count_topic m.topic (count_message size mb))
          (enqueue (get_or_create_topic_queue m.topic mb) m'))
    else some (some not_running, mb)
