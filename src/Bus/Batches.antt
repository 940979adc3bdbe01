-- ===== src/Bus/Batches.antt =====
-- `megaProcessAllAvailableMessages` (pkg/queue/lockfree.go) on a bus whose queues hold lists of
-- messages: what it processes, in which order, and what it leaves.
use portask.Prelude.{
  ℕ, zero, suc, ◌+◌, ◌≡◌, refl, sym, ap, ap₂, Bool, true, false, Option, some, List, [], ◌∷◌, ◌++◌,
  length, length-append, take, drop, arith,
}
use portask.Message.{PortaskMessage}
use portask.Queue.Repr.{Holds}
use portask.Bus.{MessageBus}
use portask.Bus.Worker.{Worker, process_batch, process_batches}
use portask.Bus.Lanes.{
  process_list, process_list-append, process_up_to-TakesUpTo, TopicsHold, topics_taken, topics_left,
  process_topics-TakesTopics,
}

-- The messages that wait in the queues of a bus.
pub record Waiting : Type 0 where
  pub high : List PortaskMessage
  pub normal : List PortaskMessage
  pub low : List PortaskMessage
  pub topics : List (List PortaskMessage)

pub record BusHolds (mb : MessageBus) (v : Waiting) : Type 0 where
  pub high : (k : ℕ) × Holds mb.high_priority_queue k v.high
  pub normal : (k : ℕ) × Holds mb.normal_priority_queue k v.normal
  pub low : (k : ℕ) × Holds mb.low_priority_queue k v.low
  pub topics : TopicsHold mb.topic_queues v.topics

-- One round: 50 messages of high priority, 100 of normal and 25 of low, and 50 of each topic.
abbrev pub batch_of : Waiting → List PortaskMessage
batch_of v = take 50 v.high ++ (take 100 v.normal ++ (take 25 v.low ++ topics_taken v.topics))

abbrev pub after_batch : Waiting → Waiting
after_batch v = record {
  high = drop 50 v.high;
  normal = drop 100 v.normal;
  low = drop 25 v.low;
  topics = topics_left v.topics;
}

-- Rounds until one finds nothing, with so many left: the messages in their order and what is left.
unfoldable pub round_then :
    List PortaskMessage → Waiting → List PortaskMessage × Waiting → List PortaskMessage × Waiting
round_then [] v r = ([], v)
round_then (m ∷ ms) v r = ((m ∷ ms) ++ r.0, r.1)

unfoldable pub rounds : ℕ → Waiting → List PortaskMessage × Waiting
unfolding round_then
rounds zero v = ([], v)
rounds (suc n) v = round_then (batch_of v) (after_batch v) (rounds n (after_batch v))

module _ {P : Type 0} (process_message : P → Option PortaskMessage → Bool × P) where
  pub record TakesBatch (w : Worker P) (mb : MessageBus) (v : Waiting) : Type 0 where
    pub next : MessageBus
    pub replies :
        process_batch process_message w mb
        ≡ some (length (batch_of v), (process_list process_message w (batch_of v), next))
    pub holds : BusHolds next (after_batch v)

  four :
      (w : Worker P) (a b c d : List PortaskMessage) (mb : MessageBus)
      → ◌≡◌ {A = Option (ℕ × (Worker P × MessageBus))}
          (some (
            length a + length b + length c + length d,
            (
              process_list process_message
                  (process_list process_message
                    (process_list process_message (process_list process_message w a) b)
                    c)
                  d,
              mb,
            ),
          ))
          (some (
            length (a ++ (b ++ (c ++ d))),
            (process_list process_message w (a ++ (b ++ (c ++ d))), mb),
          ))
  four w a b c d mb =
      let l = length-append a (b ++ (c ++ d)) in
      ap₂ (λ (n : ℕ) (w' : Worker P). some (n, (w', mb)))
        (omega (arith, l, length-append b (c ++ d), length-append c d))
        (rw (
          process_list-append process_message w a (b ++ (c ++ d)),
          process_list-append process_message (process_list process_message w a) b (c ++ d),
          process_list-append process_message
              (process_list process_message (process_list process_message w a) b) c d,
        ))

  process_batch-TakesBatch :
      (w : Worker P) (mb : MessageBus) (v : Waiting) → BusHolds mb v → TakesBatch w mb v
  unfolding process_batch
  process_batch-TakesBatch w mb v h =
      let run = process_list process_message in
      let a =
        process_up_to-TakesUpTo process_message 50 w mb.high_priority_queue h.high.0 v.high
          h.high.1 in
      let w1 = run w (take 50 v.high) in
      let b =
        process_up_to-TakesUpTo process_message 100 w1 mb.normal_priority_queue h.normal.0 v.normal
          h.normal.1 in
      let w2 = run w1 (take 100 v.normal) in
      let c =
        process_up_to-TakesUpTo process_message 25 w2 mb.low_priority_queue h.low.0 v.low h.low.1 in
      let w3 = run w2 (take 25 v.low) in
      let d = process_topics-TakesTopics process_message w3 mb.topic_queues v.topics h.topics in
      record {
        next = record mb {
          high_priority_queue = a.next;
          normal_priority_queue = b.next;
          low_priority_queue = c.next;
          topic_queues = d.next;
        };
        replies =
            rw (a.replies, process_batch, b.replies, c.replies, d.replies)
              (four w (take 50 v.high) (take 100 v.normal) (take 25 v.low) (topics_taken v.topics)
                (record mb {
                  high_priority_queue = a.next;
                  normal_priority_queue = b.next;
                  low_priority_queue = c.next;
                  topic_queues = d.next;
                }));
        holds = record {
          high = (h.high.0, a.holds);
          normal = (h.normal.0, b.holds);
          low = (h.low.0, c.holds);
          topics = d.holds;
        };
      }

  -- So many batches process the messages `r.0` and leave those of `r.1`.
  pub record TakesBatches (n : ℕ) (w : Worker P) (mb : MessageBus)
      (r : List PortaskMessage × Waiting) : Type 0 where
    pub any : Bool
    pub next : MessageBus
    pub replies :
        process_batches process_message n w mb
        ≡ some (any, (process_list process_message w r.0, next))
    pub holds : BusHolds next r.1

  -- One more round, by what it takes.
  next_round :
      (n : ℕ) (w : Worker P) (mb : MessageBus) (v : Waiting) (bs : List PortaskMessage)
      (r : List PortaskMessage × Waiting)
      → batch_of v ≡ bs
      → TakesBatch w mb v
      → ((w' : Worker P) (mb' : MessageBus)
          → BusHolds mb' (after_batch v)
          → TakesBatches n w' mb' r)
      → TakesBatches (suc n) w mb (round_then bs (after_batch v) r)
  unfolding process_batches round_then process_list
  next_round n w mb v [] r e t more = record {
    any = false;
    next = t.next;
    replies = rw (t.replies, process_batches, e) refl;
    holds = t.holds;
  }
  next_round n w mb v (m ∷ ms) r e t more =
      let w' = process_list process_message w (m ∷ ms) in
      let s = more w' t.next t.holds in
      record {
        any = true;
        next = s.next;
        replies =
            rw (t.replies, process_batches, e, s.replies)
              (ap (λ (w'' : Worker P). some (true, (w'', s.next)))
                (sym (process_list-append process_message w (m ∷ ms) r.0)));
        holds = s.holds;
      }

  pub process_batches-TakesBatches :
      (n : ℕ) (w : Worker P) (mb : MessageBus) (v : Waiting)
      → BusHolds mb v
      → TakesBatches n w mb (rounds n v)
  unfolding process_batches rounds process_list
  process_batches-TakesBatches zero w mb v h = record {
    any = false;
    next = mb;
    replies = refl;
    holds = h;
  }
  process_batches-TakesBatches (suc n) w mb v h =
      next_round n w mb v (batch_of v) (rounds n (after_batch v)) refl
        (process_batch-TakesBatch w mb v h)
        (λ w' mb'. process_batches-TakesBatches n w' mb' (after_batch v))
