-- ===== src/Bus/Lanes.antt =====
-- `processFromQueue` (pkg/queue/lockfree.go) again and again on a queue that holds a list of
-- messages: a worker takes them in their order.
use portask.Prelude.{
  ℕ, zero, suc, ◌+◌, ◌≡◌, refl, Bool, Option, some, List, [], ◌∷◌, ◌++◌, length, length-append,
  take, drop,
}
use portask.Message.{Text, PortaskMessage}
use portask.Queue.{release}
use portask.Queue.Repr.{Holds}
use portask.Queue.Nodes.{release-Holds}
use portask.Queue.Fifo.{dequeue-item, dequeue-empty}
use portask.Bus.{Queue}
use portask.Bus.Worker.{
  Worker, process, after_dequeue, process_from_queue, count_one, process_up_to, process_topics,
}

-- The topic queues hold lists of messages, queue by queue.
abbrev pub TopicsHold : List (Text × Queue) → List (List PortaskMessage) → Type 0
TopicsHold [] [] = Unit {0}
TopicsHold [] (xs ∷ xss) = ⊥
TopicsHold (e ∷ queues) [] = ⊥
TopicsHold ((topic, q) ∷ queues) (xs ∷ xss) = ((k : ℕ) × Holds q k xs) × TopicsHold queues xss

-- What one round takes of the topic queues, and what it leaves.
abbrev pub topics_taken : List (List PortaskMessage) → List PortaskMessage
topics_taken [] = []
topics_taken (xs ∷ xss) = take 50 xs ++ topics_taken xss

abbrev pub topics_left : List (List PortaskMessage) → List (List PortaskMessage)
topics_left [] = []
topics_left (xs ∷ xss) = drop 50 xs ∷ topics_left xss

module _ {P : Type 0} (process_message : P → Option PortaskMessage → Bool × P) where
  -- A worker after the messages, one after another.
  unfoldable pub process_list : Worker P → List PortaskMessage → Worker P
  process_list w [] = w
  process_list w (m ∷ messages) = process_list (process process_message (some m) w) messages

  pub process_list-append :
      (w : Worker P) (xs ys : List PortaskMessage)
      → process_list w (xs ++ ys) ≡ process_list (process_list w xs) ys
  unfolding process_list
  process_list-append w [] ys = refl
  process_list-append w (x ∷ xs) ys = process_list-append (process process_message (some x) w) xs ys

  pub joined :
      {S : Type 0} (w : Worker P) (xs ys : List PortaskMessage) (s : S)
      → ◌≡◌ {A = Option (ℕ × (Worker P × S))}
          (some (length xs + length ys, (process_list (process_list w xs) ys, s)))
          (some (length (xs ++ ys), (process_list w (xs ++ ys), s)))
  joined w xs ys s = rw (length-append xs ys, process_list-append w xs ys) refl

  -- What `process_up_to` does to a queue that holds `xs`.
  pub record TakesUpTo (n : ℕ) (w : Worker P) (q : Queue) (k : ℕ) (xs : List PortaskMessage)
      : Type 0 where
    pub next : Queue
    pub replies :
        process_up_to process_message n w q
        ≡ some (length (take n xs), (process_list w (take n xs), next))
    pub holds : Holds next k (drop n xs)

  pub process_up_to-TakesUpTo :
      (n : ℕ) (w : Worker P) (q : Queue) (k : ℕ) (xs : List PortaskMessage)
      → Holds q k xs
      → TakesUpTo n w q k xs
  unfolding process_up_to process_from_queue after_dequeue process_list count_one
  process_up_to-TakesUpTo zero w q k xs h = record { next = q; replies = refl; holds = h }
  process_up_to-TakesUpTo (suc n) w q k [] h = record {
    next = q;
    replies = rw (dequeue-empty h, process_up_to) refl;
    holds = h;
  }
  process_up_to-TakesUpTo (suc n) w q k (x ∷ xs) h =
      let t =
        process_up_to-TakesUpTo n (process process_message (some x) w) (release q q.dequeue_pos) k
          xs (release-Holds h) in
      record {
        next = t.next;
        replies = rw (dequeue-item h, process_up_to, t.replies) refl;
        holds = t.holds;
      }

  pub record TakesTopics (w : Worker P) (queues : List (Text × Queue))
      (xss : List (List PortaskMessage)) : Type 0 where
    pub next : List (Text × Queue)
    pub replies :
        process_topics process_message w queues
        ≡ some (length (topics_taken xss), (process_list w (topics_taken xss), next))
    pub holds : TopicsHold next (topics_left xss)

  pub process_topics-TakesTopics :
      (w : Worker P) (queues : List (Text × Queue)) (xss : List (List PortaskMessage))
      → TopicsHold queues xss
      → TakesTopics w queues xss
  unfolding process_topics process_list
  process_topics-TakesTopics w [] [] h = record { next = []; replies = refl; holds = tt }
  process_topics-TakesTopics w [] (xs ∷ xss) h = elim h [ ]
  process_topics-TakesTopics w ((topic, q) ∷ queues) [] h = elim h [ ]
  process_topics-TakesTopics w ((topic, q) ∷ queues) (xs ∷ xss) h =
      let t = process_up_to-TakesUpTo 50 w q h.0.0 xs h.0.1 in
      let s = process_topics-TakesTopics (process_list w (take 50 xs)) queues xss h.1 in
      record {
        next = (topic, t.next) ∷ s.next;
        replies =
            rw (t.replies, process_topics, s.replies)
              (joined w (take 50 xs) (topics_taken xss) ((topic, t.next) ∷ s.next));
        holds = ((h.0.0, t.holds), s.holds);
      }
