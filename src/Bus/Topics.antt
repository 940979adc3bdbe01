-- ===== src/Bus/Topics.antt =====
-- `PublishToTopic` (pkg/queue/lockfree.go), whose queues drop the oldest message, and the priority
-- queues under that policy, once they have been full.
use portask.Prelude.{
  ℕ, ◌^◌, ◌≡◌, refl, ap, ◌∙◌, Bool, true, false, Option, none, some, List, [], ◌∷◌, length,
  if◌then◌else◌, arith,
}
use portask.Prelude.Maps.{nat_eq, list_eq, find, put, find-put_self}
use portask.Message.{Text, PortaskMessage, get_size}
use portask.Queue.{drop_oldest, count_drop, enqueue, dequeue, try_force_enqueue_drop_oldest}
use portask.Queue.Repr.{Holds}
use portask.Queue.Wedge.{IsWedged, count_drop-IsWedged}
use portask.Queue.Stuck.{enqueue-IsWedged, dequeue-IsWedged, try_force-IsWedged, full-IsWedged}
use portask.Bus.{
  Lane, set_lane, finish_offer, Queue, MessageBus, BusError, Offered, dropped, after_force,
  after_enqueue, offer, or_new_queue, get_or_create_topic_queue, count_topic, count_message,
  finish_topic, publish_to_topic, topic_queue_full, not_running,
}

-- What happens to the queue of a topic: a message is published, or a worker takes one.
pub data TopicCall : Type 0 where
  publish_call : PortaskMessage → TopicCall
  take_call : TopicCall

-- The dequeue of a worker, on the queue in the map.
pub put_taken :
    Text → MessageBus → Option ((Option PortaskMessage × Bool) × Queue) → Option MessageBus
put_taken topic mb none = none
put_taken topic mb (some (out, q)) = some (record mb { topic_queues = put mb.topic_queues topic q })

pub drop_reply : List Bool → Option MessageBus → Option (List Bool × MessageBus)
drop_reply replies none = none
drop_reply replies (some mb) = some (replies, mb)

pub is_none : Option BusError → Bool
is_none none = true
is_none (some e) = false

-- Did each publish succeed?
pub topic_calls : Text → MessageBus → List TopicCall → Option (List Bool × MessageBus)
topic_calls topic mb [] = some ([], mb)
topic_calls topic mb (publish_call m ∷ calls) =
    elim (publish_to_topic (record m { topic = topic }) mb) [
      | none ↦ none
      | some (e, mb') ↦ elim (topic_calls topic mb' calls) [
        | none ↦ none
        | some (replies, mb'') ↦ some (is_none e ∷ replies, mb'')
      ]
    ]
topic_calls topic mb (take_call ∷ calls) =
    elim (put_taken topic mb (dequeue (get_or_create_topic_queue topic mb))) [
      | none ↦ none
      | some mb' ↦ topic_calls topic mb' calls
    ]

abbrev pub AllFalse : List Bool → Type 0
AllFalse [] = Unit {0}
AllFalse (b ∷ bs) = (b ≡ false) × AllFalse bs

-- The topic's queue is wedged, and the bus runs.
record TopicWedged (topic : Text) (mb : MessageBus) (k : ℕ) : Type 0 where
  queue : Queue
  found : find mb.topic_queues topic ≡ some queue
  wedged : IsWedged queue k
  running : mb.running ≡ true

-- A publish whose enqueue is refused with the queue `q`.
publish_to_topic-refused :
    (m : PortaskMessage) (mb : MessageBus) (q q' : Queue)
    → mb.running ≡ true
    → find mb.topic_queues m.topic ≡ some q
    → enqueue q (get_size m).1 ≡ some (false, q')
    → publish_to_topic m mb
      ≡ some (
        some topic_queue_full,
        record (count_topic m.topic (count_message (get_size m).0 mb)) {
          topic_queues = put mb.topic_queues m.topic q';
        },
      )
unfolding publish_to_topic get_or_create_topic_queue finish_topic count_topic count_message
publish_to_topic-refused m mb q q' run f e =
    let (size, m') = get_size m in
    let counted = count_topic m.topic (count_message size mb) in
    ap
      (λ b.
        if b
        then finish_topic m.topic counted (enqueue (or_new_queue (find mb.topic_queues m.topic)) m')
        else some (some not_running, mb))
      run
    ∙ ap (λ o. finish_topic m.topic counted (enqueue (or_new_queue o) m')) f
    ∙ ap (finish_topic m.topic counted) e

-- What a list of calls does to a bus with a wedged topic.
abbrev pub StaysShut : Text → MessageBus → List TopicCall → Type 0
StaysShut topic mb calls =
    (replies : List Bool) × (mb' : MessageBus) × (topic_calls topic mb calls ≡ some (replies, mb'))
    × AllFalse replies

topic_calls-TopicWedged :
    (topic : Text) (mb : MessageBus) (k : ℕ) (calls : List TopicCall)
    → TopicWedged topic mb k
    → StaysShut topic mb calls
unfolding topic_calls put_taken is_none count_topic count_message get_or_create_topic_queue
topic_calls-TopicWedged topic mb k [] t = ([], mb, refl, tt)
topic_calls-TopicWedged topic mb k (publish_call m ∷ calls) t =
    let m' = record m { topic = topic } in
    let (q', e, w') = enqueue-IsWedged t.queue (get_size m').1 t.wedged in
    let mb' = record (count_topic topic (count_message (get_size m').0 mb)) {
      topic_queues = put mb.topic_queues topic q';
    } in
    let (replies, mb'', f, g) = topic_calls-TopicWedged topic mb' k calls (record {
      queue = q';
      found = find-put_self mb.topic_queues topic q';
      wedged = w';
      running = t.running;
    }) in
    (
      false ∷ replies,
      mb'',
      rw (publish_to_topic-refused m' mb t.queue q' t.running t.found e, topic_calls, f) refl,
      (refl, g),
    )
topic_calls-TopicWedged topic mb k (take_call ∷ calls) t =
    let (out, q', e, w') = dequeue-IsWedged t.queue t.wedged in
    let mb' = record mb { topic_queues = put mb.topic_queues topic q' } in
    let (replies, mb'', f, g) = topic_calls-TopicWedged topic mb' k calls (record {
      queue = q';
      found = find-put_self mb.topic_queues topic q';
      wedged = w';
      running = t.running;
    }) in
    (replies, mb'', rw (t.found, topic_calls, e) f, g)

-- When the queue of a topic is full, as it is once as many messages wait as it has places,
-- `PublishToTopic` fails for the next message and, whatever messages are published to the topic and
-- taken by workers afterwards, for every later one.
pub full_topic_refuses :
    (topic : Text) (mb : MessageBus) (q : Queue) (k : ℕ) (xs : List PortaskMessage)
    (m : PortaskMessage) (calls : List TopicCall)
    → mb.running ≡ true
    → find mb.topic_queues topic ≡ some q
    → Holds q k xs
    → length xs ≡ 2 ^ k
    → q.drop_policy ≡ drop_oldest
    → StaysShut topic mb (publish_call m ∷ calls)
unfolding topic_calls is_none count_topic count_message
full_topic_refuses topic mb q k xs m calls run f h full pol =
    let m' = record m { topic = topic } in
    let (q', e, w') = full-IsWedged h full pol (get_size m').1 in
    let mb' = record (count_topic topic (count_message (get_size m').0 mb)) {
      topic_queues = put mb.topic_queues topic q';
    } in
    let (replies, mb'', g, r) = topic_calls-TopicWedged topic mb' k calls (record {
      queue = q';
      found = find-put_self mb.topic_queues topic q';
      wedged = w';
      running = run;
    }) in
    (
      false ∷ replies,
      mb'',
      rw (publish_to_topic-refused m' mb q q' run f e, topic_calls, g) refl,
      (refl, r),
    )

-- What the offers to a queue give, with messages taken off between them.
pub offers_and_takes : Queue → List TopicCall → Option (List Offered)
offers_and_takes q [] = some []
offers_and_takes q (publish_call m ∷ calls) = elim (offer m q) [
  | none ↦ none
  | some (o, q') ↦ elim (offers_and_takes q' calls) [ none ↦ none | some os ↦ some (o ∷ os) ]
]
offers_and_takes q (take_call ∷ calls) = elim (dequeue q) [
  | none ↦ none
  | some (out, q') ↦ offers_and_takes q' calls
]

abbrev pub AllDropped : List Offered → Type 0
AllDropped [] = Unit {0}
AllDropped (o ∷ os) = (o ≡ dropped) × AllDropped os

offer-refused :
    (m : PortaskMessage) (q q' q'' : Queue)
    → enqueue q m ≡ some (false, q')
    → q'.drop_policy ≡ drop_oldest
    → try_force_enqueue_drop_oldest q' m ≡ some (false, q'')
    → offer m q ≡ some (dropped, count_drop q'')
unfolding offer after_enqueue after_force
offer-refused m q q' q'' e p f = ground arith

offers-IsWedged :
    (k : ℕ) (q : Queue) (calls : List TopicCall)
    → IsWedged q k
    → (os : List Offered) × (offers_and_takes q calls ≡ some os) × AllDropped os
unfolding offers_and_takes
offers-IsWedged k q [] w = ([], refl, tt)
offers-IsWedged k q (publish_call m ∷ calls) w =
    let (q', e, w') = enqueue-IsWedged q m w in
    let (q'', f, w'') = try_force-IsWedged q' m w' in
    let (os, g, d) = offers-IsWedged k (count_drop q'') calls (count_drop-IsWedged w'') in
    (dropped ∷ os, rw (offer-refused m q q' q'' e w'.policy f, offers_and_takes, g) refl, (refl, d))
offers-IsWedged k q (take_call ∷ calls) w =
    let (out, q', e, w') = dequeue-IsWedged q w in
    let (os, g, d) = offers-IsWedged k q' calls w' in (os, rw (e, offers_and_takes) g, d)

-- When a priority queue under DropOldest is full, the next message that is offered to it is dropped
-- while its publisher is told that it was accepted, and so is every later one, whatever workers take
-- off the queue in between.
pub full_lane_drops :
    (q q' : Queue) (k : ℕ) (xs : List PortaskMessage) (m : PortaskMessage) (calls : List TopicCall)
    (wake : MessageBus → MessageBus) (lane : Lane) (mb : MessageBus)
    → Holds q k xs
    → length xs ≡ 2 ^ k
    → q.drop_policy ≡ drop_oldest
    → (os : List Offered) × (offers_and_takes q (publish_call m ∷ calls) ≡ some os)
      × AllDropped os
      × (finish_offer wake lane mb (some (dropped, q')) ≡ some (none, set_lane mb lane q'))
unfolding offers_and_takes finish_offer
full_lane_drops q _ k xs m calls wake lane mb h full pol =
    let (q', e, w') = full-IsWedged h full pol m in
    let (q'', f, w'') = try_force-IsWedged q' m w' in
    let (os, g, d) = offers-IsWedged k (count_drop q'') calls (count_drop-IsWedged w'') in
    (
      dropped ∷ os,
      rw (offer-refused m q q' q'' e w'.policy f, offers_and_takes, g) refl,
      (refl, d),
      refl,
    )
