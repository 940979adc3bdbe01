-- ===== src/Bus/Publish.antt =====
-- `Publish` and `PublishToPriority` (pkg/queue/lockfree.go) on a bus whose queues hold messages.
use portask.Prelude.{
  ℕ, ◌+◌, ◌^◌, ◌≤◌, ◌<◌, ◌≡◌, ◌≢◌, refl, sym, subst, ap, ◌∙◌, true, Option, none, some, List, [],
  ◌∷◌, ◌++◌, length, ltb, if◌then◌else◌, arith, lt→ltb, ltb-false,
}
use native.Mathlib.Decide.{dec_lt}
use portask.Message.{PortaskMessage, get_size}
use portask.Queue.{drop_oldest, add64}
use portask.Queue.Repr.{Holds}
use portask.Bus.{
  Queue, MessageBus, BusError, not_running, queue_full, Lane, high, normal, low, lane_of,
  lane_queue, set_lane, Offered, accepted, refused, notify_workers, count_message, finish_offer,
  publish_on, publish, publish_to_priority,
}
use portask.Bus.Offers.{Offers, offer_room, offer_full}
use portask.Bus.Batches.{Waiting, BusHolds}

abbrev pub waiting_in : Waiting → Lane → List PortaskMessage
waiting_in v high = v.high
waiting_in v normal = v.normal
waiting_in v low = v.low

abbrev pub with_waiting : Waiting → Lane → List PortaskMessage → Waiting
with_waiting v high xs = record v { high = xs }
with_waiting v normal xs = record v { normal = xs }
with_waiting v low xs = record v { low = xs }

-- The messages of the lane, with the new one at their end if there is room.
pub after_publish : ℕ → List PortaskMessage → PortaskMessage → Option BusError × List PortaskMessage
after_publish capacity xs m =
    if ltb (length xs) capacity then (none, xs ++ m ∷ []) else (some queue_full, xs)

-- What publishing on the lane of the priority does to a bus in which `v` waits.
pub record Publishes (m : PortaskMessage) (mb : MessageBus) (v : Waiting)
    (out : Option (Option BusError × MessageBus)) : Type 0 where
  pub next : MessageBus
  pub replies :
      out
      ≡ some (
        (after_publish
            (lane_queue mb (lane_of m.priority)).capacity
            (waiting_in v (lane_of m.priority))
            (get_size m).1).0,
        next,
      )
  pub holds : BusHolds next (
      with_waiting v
        (lane_of m.priority)
        (after_publish
          (lane_queue mb (lane_of m.priority)).capacity
          (waiting_in v (lane_of m.priority))
          (get_size m).1).1)
  pub others :
      (other : Lane) → other ≢ lane_of m.priority → lane_queue next other ≡ lane_queue mb other
  pub same_capacity :
      (lane_queue next (lane_of m.priority)).capacity
      ≡ (lane_queue mb (lane_of m.priority)).capacity
  pub same_policy :
      (lane_queue next (lane_of m.priority)).drop_policy
      ≡ (lane_queue mb (lane_of m.priority)).drop_policy
  pub total : next.total_messages ≡ add64 mb.total_messages 1
  pub bytes : next.total_bytes ≡ add64 mb.total_bytes (get_size m).0
  pub same_topics : next.topic_queues ≡ mb.topic_queues
  pub still_running : next.running ≡ mb.running

-- What an accepted message does besides touches only the channels.
record Wakes (wake : MessageBus → MessageBus) : Type 0 where
  holds : (mb : MessageBus) (v : Waiting) → BusHolds mb v → BusHolds (wake mb) v
  lanes : (mb : MessageBus) (lane : Lane) → lane_queue (wake mb) lane ≡ lane_queue mb lane
  total : (mb : MessageBus) → (wake mb).total_messages ≡ mb.total_messages
  bytes : (mb : MessageBus) → (wake mb).total_bytes ≡ mb.total_bytes
  topics : (mb : MessageBus) → (wake mb).topic_queues ≡ mb.topic_queues
  running : (mb : MessageBus) → (wake mb).running ≡ mb.running

lane_holds :
    {mb : MessageBus} {v : Waiting}
    → BusHolds mb v
    → (lane : Lane) → (k : ℕ) × Holds (lane_queue mb lane) k (waiting_in v lane)
lane_holds h high = h.high
lane_holds h normal = h.normal
lane_holds h low = h.low

set_lane-BusHolds :
    {mb : MessageBus} {v : Waiting}
    → BusHolds mb v
    → (lane : Lane) (q : Queue) (k : ℕ) (xs : List PortaskMessage) → Holds q k xs
    → (size : ℕ) → BusHolds (set_lane (count_message size mb) lane q) (with_waiting v lane xs)
unfolding count_message
set_lane-BusHolds h high q k xs hq size = record {
  high = (k, hq);
  normal = h.normal;
  low = h.low;
  topics = h.topics;
}
set_lane-BusHolds h normal q k xs hq size = record {
  high = h.high;
  normal = (k, hq);
  low = h.low;
  topics = h.topics;
}
set_lane-BusHolds h low q k xs hq size = record {
  high = h.high;
  normal = h.normal;
  low = (k, hq);
  topics = h.topics;
}

lane_queue-notify_workers :
    (mb : MessageBus) (lane : Lane) → lane_queue (notify_workers mb) lane ≡ lane_queue mb lane
unfolding notify_workers
lane_queue-notify_workers mb high = refl
lane_queue-notify_workers mb normal = refl
lane_queue-notify_workers mb low = refl

notify_workers-Wakes : Wakes notify_workers
unfolding notify_workers
notify_workers-Wakes = record {
  holds = λ mb v h. record { high = h.high; normal = h.normal; low = h.low; topics = h.topics };
  lanes = lane_queue-notify_workers;
  total = λ mb. refl;
  bytes = λ mb. refl;
  topics = λ mb. refl;
  running = λ mb. refl;
}

nothing-Wakes : Wakes (λ mb. mb)
nothing-Wakes = record {
  holds = λ mb v h. h;
  lanes = λ mb lane. refl;
  total = λ mb. refl;
  bytes = λ mb. refl;
  topics = λ mb. refl;
  running = λ mb. refl;
}

-- `set_lane` leaves what is no priority queue.
set_lane-rest :
    (mb : MessageBus) (lane : Lane) (q : Queue)
    → ((set_lane mb lane q).total_messages ≡ mb.total_messages)
      × ((set_lane mb lane q).total_bytes ≡ mb.total_bytes)
      × ((set_lane mb lane q).topic_queues ≡ mb.topic_queues)
      × ((set_lane mb lane q).running ≡ mb.running)
set_lane-rest mb high q = (refl, refl, refl, refl)
set_lane-rest mb normal q = (refl, refl, refl, refl)
set_lane-rest mb low q = (refl, refl, refl, refl)

lane_queue-count_message :
    (mb : MessageBus) (lane : Lane) (size : ℕ)
    → lane_queue (count_message size mb) lane ≡ lane_queue mb lane
unfolding count_message
lane_queue-count_message mb high size = refl
lane_queue-count_message mb normal size = refl
lane_queue-count_message mb low size = refl

lane_queue-set_lane_self :
    (mb : MessageBus) (lane : Lane) (q : Queue) → lane_queue (set_lane mb lane q) lane ≡ q
lane_queue-set_lane_self mb high q = refl
lane_queue-set_lane_self mb normal q = refl
lane_queue-set_lane_self mb low q = refl

lane_queue-set_lane_other :
    (mb : MessageBus) (lane other : Lane) (q : Queue)
    → other ≢ lane
    → lane_queue (set_lane mb lane q) other ≡ lane_queue mb other
lane_queue-set_lane_other mb high high q n = absurd (n refl)
lane_queue-set_lane_other mb high normal q n = refl
lane_queue-set_lane_other mb high low q n = refl
lane_queue-set_lane_other mb normal high q n = refl
lane_queue-set_lane_other mb normal normal q n = absurd (n refl)
lane_queue-set_lane_other mb normal low q n = refl
lane_queue-set_lane_other mb low high q n = refl
lane_queue-set_lane_other mb low normal q n = refl
lane_queue-set_lane_other mb low low q n = absurd (n refl)

module _ (wake : MessageBus → MessageBus) (wakes : Wakes wake) (m : PortaskMessage)
    (mb : MessageBus) (v : Waiting) (h : BusHolds mb v) where
  abbrev lane : Lane
  lane = lane_of m.priority

  abbrev lane_waiting : List PortaskMessage
  lane_waiting = waiting_in v lane

  offered_capacity :
      {a : Offered} {ys : List PortaskMessage}
      → (o : Offers (get_size m).1 (lane_queue mb lane) (lane_holds h lane).0 a ys)
      → o.next.capacity ≡ (lane_queue mb lane).capacity
  offered_capacity o = o.holds.shaped.cap_eq ∙ sym ((lane_holds h lane).1.shaped.cap_eq)

  publish_room :
      Offers
        (get_size m).1
        (lane_queue mb lane)
        (lane_holds h lane).0
        accepted
        (lane_waiting ++ (get_size m).1 ∷ [])
      → length lane_waiting < (lane_queue mb lane).capacity
      → Publishes m mb v (publish_on wake m mb)
  unfolding publish_on finish_offer after_publish count_message
  publish_room o room =
      let counted = count_message (get_size m).0 mb in
      let bus = set_lane counted lane o.next in
      let rest = set_lane-rest (count_message (get_size m).0 mb) lane o.next in
      record {
        next = wake bus;
        replies =
            rw (o.replies, lt→ltb (length lane_waiting) (lane_queue mb lane).capacity room) refl;
        holds = rw (lt→ltb (length lane_waiting) (lane_queue mb lane).capacity room) (
            wakes.holds bus _
              (set_lane-BusHolds h lane o.next (lane_holds h lane).0 _ o.holds (get_size m).0));
        others = λ other n.
            wakes.lanes bus other
            ∙ lane_queue-set_lane_other counted lane other o.next n
            ∙ lane_queue-count_message mb other (get_size m).0;
        same_capacity =
            ap (λ q. q.capacity)
              (wakes.lanes bus lane ∙ lane_queue-set_lane_self counted lane o.next)
            ∙ offered_capacity o;
        same_policy =
            ap (λ q. q.drop_policy)
              (wakes.lanes bus lane ∙ lane_queue-set_lane_self counted lane o.next)
            ∙ o.policy;
        total = wakes.total bus ∙ rest.0;
        bytes = wakes.bytes bus ∙ rest.1;
        same_topics = wakes.topics bus ∙ rest.2;
        still_running = wakes.running bus ∙ rest.3;
      }

  publish_full :
      Offers (get_size m).1 (lane_queue mb lane) (lane_holds h lane).0 refused lane_waiting
      → (lane_queue mb lane).capacity ≤ length lane_waiting
      → Publishes m mb v (publish_on wake m mb)
  unfolding publish_on finish_offer after_publish count_message
  publish_full o full =
      let counted = count_message (get_size m).0 mb in
      let bus = set_lane counted lane o.next in
      let rest = set_lane-rest (count_message (get_size m).0 mb) lane o.next in
      record {
        next = bus;
        replies =
            rw (o.replies, ltb-false (length lane_waiting) (lane_queue mb lane).capacity full) refl;
        holds =
            rw (ltb-false (length lane_waiting) (lane_queue mb lane).capacity full)
              (set_lane-BusHolds h lane o.next (lane_holds h lane).0 _ o.holds (get_size m).0);
        others = λ other n.
            lane_queue-set_lane_other counted lane other o.next n
            ∙ lane_queue-count_message mb other (get_size m).0;
        same_capacity =
            ap (λ q. q.capacity) (lane_queue-set_lane_self counted lane o.next)
            ∙ offered_capacity o;
        same_policy =
            ap (λ q. q.drop_policy) (lane_queue-set_lane_self counted lane o.next) ∙ o.policy;
        total = rest.0;
        bytes = rest.1;
        same_topics = rest.2;
        still_running = rest.3;
      }

  publish_on-Publishes :
      (lane_queue mb lane).drop_policy ≢ drop_oldest
      → (lane_queue mb lane).enqueue_pos + 1 < 2 ^ 62
      → Publishes m mb v (publish_on wake m mb)
  publish_on-Publishes pol early =
      let (k, hq) = lane_holds h lane in
      elim (dec_lt (length lane_waiting) (2 ^ k)) [
        | yes l ↦
            publish_room (offer_room hq (get_size m).1 l early) (omega (arith, hq.shaped.cap_eq))
        | no n ↦
            publish_full (offer_full hq (get_size m).1 (omega (arith, hq.fits)) pol)
              (omega (arith, hq.shaped.cap_eq))
      ]

-- On a running bus whose queues hold messages, each with at least two places, `Publish` and
-- `PublishToPriority` put the message, with the size that they computed, at the end of the queue of
-- its priority if that queue has room, and otherwise return the error that the queue is full and
-- leave what waits; the queue keeps its capacity and policy, the messages and bytes are counted, and
-- the other priority queues and the topic queues are exactly as they were. No policy of a priority
-- queue is DropOldest, and the positions are below 2^62 - 1.
pub publish-Publishes :
    (m : PortaskMessage) (p : ℕ) (mb : MessageBus) (v : Waiting)
    → BusHolds mb v
    → mb.running ≡ true
    → ((lane : Lane) → (lane_queue mb lane).drop_policy ≢ drop_oldest)
    → ((lane : Lane) → (lane_queue mb lane).enqueue_pos + 1 < 2 ^ 62)
    → Publishes m mb v (publish m mb)
      × Publishes (record m { priority = p }) mb v (publish_to_priority m p mb)
unfolding publish publish_to_priority
publish-Publishes m p mb v h run pol early =
    let m' = record m { priority = p } in
    (
      subst
          (λ b.
            Publishes m mb v
              (if b then publish_on notify_workers m mb else some (some not_running, mb)))
          (sym run)
          (publish_on-Publishes notify_workers notify_workers-Wakes m mb v h
            (pol (lane_of m.priority)) (early (lane_of m.priority))),
      subst
          (λ b.
            Publishes m' mb v
              (if b then publish_on (λ bus. bus) m' mb else some (some not_running, mb)))
          (sym run)
          (publish_on-Publishes (λ bus. bus) nothing-Wakes m' mb v h (pol (lane_of p))
            (early (lane_of p))),
    )
