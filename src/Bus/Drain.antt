-- ===== src/Bus/Drain.antt =====
-- `megaProcessAllAvailableMessages` (pkg/queue/lockfree.go): no message is lost or processed twice,
-- and the queues end empty when their messages fit its 100 batches.
use portask.Prelude.{
  ℕ, zero, suc, ◌+◌, ◌*◌, ◌≤◌, ◌≡◌, refl, sym, ap, ◌∙◌, Bool, Option, some, List, [], ◌∷◌, ◌++◌,
  if◌then◌else◌, length, length-append, length-drop, length-take, take, drop, take-append-drop,
  arith, true,
}
use portask.Message.{PortaskMessage}
use portask.Bus.{MessageBus}
use portask.Bus.Worker.{Worker, mega_process_all_available_messages}
use portask.Bus.Lanes.{process_list, topics_taken, topics_left}
use portask.Bus.Batches.{
  Waiting, BusHolds, batch_of, after_batch, round_then, rounds, process_batches-TakesBatches,
}

-- How many messages pass a test.
pub count_if : (PortaskMessage → Bool) → List PortaskMessage → ℕ
count_if f [] = 0
count_if f (m ∷ messages) = if f m then suc (count_if f messages) else count_if f messages

count_if-append :
    (f : PortaskMessage → Bool) (xs ys : List PortaskMessage)
    → count_if f (xs ++ ys) ≡ count_if f xs + count_if f ys
unfolding count_if
count_if-append f [] ys = omega arith
count_if-append f (x ∷ xs) ys = ground (arith, count_if-append f xs ys)

count_if-split :
    (f : PortaskMessage → Bool) (n : ℕ) (xs : List PortaskMessage)
    → count_if f (take n xs) + count_if f (drop n xs) ≡ count_if f xs
count_if-split f n xs =
    sym (count_if-append f (take n xs) (drop n xs)) ∙ ap (count_if f) (take-append-drop n xs)

pub count_topics : (PortaskMessage → Bool) → List (List PortaskMessage) → ℕ
count_topics f [] = 0
count_topics f (xs ∷ xss) = count_if f xs + count_topics f xss

-- How many of the messages that wait pass a test.
pub count_waiting : (PortaskMessage → Bool) → Waiting → ℕ
count_waiting f v =
    count_if f v.high + count_if f v.normal + count_if f v.low + count_topics f v.topics

count_topics-split :
    (f : PortaskMessage → Bool) (xss : List (List PortaskMessage))
    → count_if f (topics_taken xss) + count_topics f (topics_left xss) ≡ count_topics f xss
unfolding count_topics count_if
count_topics-split f [] = refl
count_topics-split f (xs ∷ xss) = omega (
  arith,
  count_if-append f (take 50 xs) (topics_taken xss),
  count_if-split f 50 xs,
  count_topics-split f xss,
)

count_batch :
    (f : PortaskMessage → Bool) (v : Waiting)
    → count_if f (batch_of v) + count_waiting f (after_batch v) ≡ count_waiting f v
unfolding count_waiting
count_batch f v =
    let d = topics_taken v.topics in
    omega (
      arith,
      count_if-append f (take 50 v.high) (take 100 v.normal ++ (take 25 v.low ++ d)),
      count_if-append f (take 100 v.normal) (take 25 v.low ++ d),
      count_if-append f (take 25 v.low) d,
      count_if-split f 50 v.high,
      count_if-split f 100 v.normal,
      count_if-split f 25 v.low,
      count_topics-split f v.topics,
    )

count_round_then :
    (f : PortaskMessage → Bool) (bs : List PortaskMessage) (v : Waiting)
    (r : List PortaskMessage × Waiting) (n : ℕ)
    → count_if f bs + count_waiting f v ≡ n
    → count_if f r.0 + count_waiting f r.1 ≡ count_waiting f v
    → count_if f (round_then bs v r).0 + count_waiting f (round_then bs v r).1 ≡ n
unfolding round_then
count_round_then f [] v r n h e = h
count_round_then f (m ∷ ms) v r n h e = omega (arith, count_if-append f (m ∷ ms) r.0)

pub count_rounds :
    (f : PortaskMessage → Bool) (n : ℕ) (v : Waiting)
    → count_if f (rounds n v).0 + count_waiting f (rounds n v).1 ≡ count_waiting f v
unfolding rounds
count_rounds f zero v = unfold count_if in omega arith
count_rounds f (suc n) v =
    count_round_then f (batch_of v) (after_batch v) (rounds n (after_batch v)) (count_waiting f v)
      (count_batch f v) (count_rounds f n (after_batch v))

-- The messages fit in so many batches.
abbrev pub TopicsFit : ℕ → List (List PortaskMessage) → Type 0
TopicsFit n [] = Unit {0}
TopicsFit n (xs ∷ xss) = (length xs ≤ 50 * n) × TopicsFit n xss

pub record Fits (n : ℕ) (v : Waiting) : Type 0 where
  pub high : length v.high ≤ 50 * n
  pub normal : length v.normal ≤ 100 * n
  pub low : length v.low ≤ 25 * n
  pub topics : TopicsFit n v.topics

topics_left-TopicsFit :
    (n : ℕ) (xss : List (List PortaskMessage))
    → TopicsFit (suc n) xss
    → TopicsFit n (topics_left xss)
topics_left-TopicsFit n [] h = tt
topics_left-TopicsFit n (xs ∷ xss) h =
    (omega (arith, length-drop 50 xs, h.0), topics_left-TopicsFit n xss h.1)

after_batch-Fits : (n : ℕ) (v : Waiting) → Fits (suc n) v → Fits n (after_batch v)
after_batch-Fits n v h = record {
  high = omega (arith, length-drop 50 v.high, h.high);
  normal = omega (arith, length-drop 100 v.normal, h.normal);
  low = omega (arith, length-drop 25 v.low, h.low);
  topics = topics_left-TopicsFit n v.topics h.topics;
}

-- Nothing passes into the queues by itself: what fits 0 batches is empty.
abbrev pub all_messages : PortaskMessage → Bool
all_messages m = true

count_if-all : (xs : List PortaskMessage) → count_if all_messages xs ≡ length xs
unfolding count_if
count_if-all [] = refl
count_if-all (x ∷ xs) = ap suc (count_if-all xs)

count_topics-all :
    (xss : List (List PortaskMessage)) → TopicsFit 0 xss → count_topics all_messages xss ≡ 0
unfolding count_topics
count_topics-all [] h = refl
count_topics-all (xs ∷ xss) h = omega (arith, count_if-all xs, h.0, count_topics-all xss h.1)

Fits-empty : (v : Waiting) → Fits 0 v → count_waiting all_messages v ≡ 0
unfolding count_waiting
Fits-empty v h = omega (
  arith,
  count_if-all v.high,
  count_if-all v.normal,
  count_if-all v.low,
  count_topics-all v.topics h.topics,
  h.high,
  h.normal,
  h.low,
)

length-topics_taken :
    (xss : List (List PortaskMessage))
    → length (topics_taken xss) ≡ 0
    → count_topics all_messages xss ≡ 0
unfolding count_topics
length-topics_taken [] h = refl
length-topics_taken (xs ∷ xss) h = omega (
  arith,
  length-append {0} (take 50 xs) (topics_taken xss),
  length-take {0} 50 xs,
  count_if-all xs,
  length-topics_taken xss (omega (arith, h, length-append {0} (take 50 xs) (topics_taken xss))),
)

batch_of-empty : (v : Waiting) → length (batch_of v) ≡ 0 → count_waiting all_messages v ≡ 0
unfolding count_waiting
batch_of-empty v h =
    let d = topics_taken v.topics in
    let a = length-append {0} (take 50 v.high) (take 100 v.normal ++ (take 25 v.low ++ d)) in
    let b = length-append {0} (take 100 v.normal) (take 25 v.low ++ d) in
    let c = length-append {0} (take 25 v.low) d in
    omega (
      arith,
      a,
      b,
      c,
      length-take {0} 50 v.high,
      length-take {0} 100 v.normal,
      length-take {0} 25 v.low,
      count_if-all v.high,
      count_if-all v.normal,
      count_if-all v.low,
      length-topics_taken v.topics (omega (arith, a, b, c, h)),
    )

round_then-empty :
    (bs : List PortaskMessage) (v : Waiting) (r : List PortaskMessage × Waiting)
    → (length bs ≡ 0 → count_waiting all_messages v ≡ 0)
    → count_waiting all_messages r.1 ≡ 0
    → count_waiting all_messages (round_then bs v r).1 ≡ 0
unfolding round_then
round_then-empty [] v r h e = h refl
round_then-empty (m ∷ ms) v r h e = e

pub rounds-empty : (n : ℕ) (v : Waiting) → Fits n v → count_waiting all_messages (rounds n v).1 ≡ 0
unfolding rounds
rounds-empty zero v h = Fits-empty v h
rounds-empty (suc n) v h =
    round_then-empty (batch_of v) (after_batch v) (rounds n (after_batch v))
      (λ e. omega (arith, count_batch all_messages v, batch_of-empty v e))
      (rounds-empty n (after_batch v) (after_batch-Fits n v h))

module _ {P : Type 0} (process_message : P → Option PortaskMessage → Bool × P) where
  -- What `megaProcessAllAvailableMessages` does to a worker and a bus in which `v` waits.
  pub record Drained (w : Worker P) (mb : MessageBus) (v : Waiting) : Type 0 where
    pub any : Bool
    pub next : MessageBus
    pub messages : List PortaskMessage
    pub left : Waiting
    pub replies :
        mega_process_all_available_messages process_message w mb
        ≡ some (any, (process_list process_message w messages, next))
    pub holds : BusHolds next left
    pub kept :
        (f : PortaskMessage → Bool) → count_if f messages + count_waiting f left ≡ count_waiting f v
    pub in_rounds : (messages, left) ≡ rounds 100 v

  -- On a bus whose queues hold messages, `megaProcessAllAvailableMessages` returns without a panic.
  -- It gives its processor the messages of its rounds, of each at most 50 of high priority, then 100
  -- of normal, 25 of low and 50 of each topic, oldest first; every message that waited is processed
  -- exactly once or still waits in its queue.
  pub mega_process_keeps :
      (w : Worker P) (mb : MessageBus) (v : Waiting) → BusHolds mb v → Drained w mb v
  unfolding mega_process_all_available_messages
  mega_process_keeps w mb v h =
      let t = process_batches-TakesBatches process_message 100 w mb v h in
      record {
        any = t.any;
        next = t.next;
        messages = (rounds 100 v).0;
        left = (rounds 100 v).1;
        replies = t.replies;
        holds = t.holds;
        kept = λ f. count_rounds f 100 v;
        in_rounds = refl;
      }
