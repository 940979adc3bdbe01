-- ===== src/Kafka/Views.antt =====
-- The log of pkg/kafka/protocol.go after any calls, against the history of the calls.
use portask.Prelude.{
  ℕ, zero, suc, ◌+◌, ◌==◌, ◌≡◌, refl, sym, ap, ◌∙◌, true, false, inl, inr, Bool-cases,
  if◌then◌else◌, Option, none, some, List, [], ◌∷◌, ◌++◌, length, arith,
}
use portask.Prelude.Maps.{nat_eq, list_eq, beq_list, find, remove, find-put, find-remove}
use portask.Kafka.{Text}
use portask.Kafka.Log.{
  Message, InMemoryTopic, MessageStore, new_in_memory_message_store, empty_partitions, or_new,
  create_topic, or_empty, append_message, produced, produce_message, get_topic_metadata,
  delete_topic,
}
use portask.Kafka.History.{
  Call, creates, produces, asks, deletes, run_call, run_calls, Entry, number, numbered, created,
  added, view_of, view, step, history,
}

length-number : (i : ℕ) (entries : List Entry) → length (number i entries) ≡ length entries
unfolding number
length-number i [] = refl
length-number i (e ∷ entries) = ap suc (length-number (i + 1) entries)

number-append :
    (i : ℕ) (entries : List Entry) (e : Entry)
    → number i (entries ++ e ∷ [])
      ≡ number i entries
        ++ record {
          offset = i + length entries;
          key = e.key;
          value = e.value;
          timestamp = e.timestamp;
        }
          ∷ []
unfolding number
number-append i [] e = rw (let p : i + 0 ≡ i = omega arith in p) refl
number-append i (x ∷ entries) e =
    let place : i + 1 + length entries ≡ i + suc (length entries) = omega arith in
    rw (number-append (i + 1) entries e, place) refl

or_empty-empty_partitions :
    (n i partition : ℕ) → or_empty (find (empty_partitions n i) partition) ≡ []
unfolding empty_partitions find
or_empty-empty_partitions zero i partition = refl
or_empty-empty_partitions (suc n) i partition = elim (Bool-cases (i == partition)) [
  | inl p ↦ rw p refl
  | inr p ↦ rw p (or_empty-empty_partitions n (i + 1) partition)
]

kept_created :
    (m : List Message) (h : Option (List Entry))
    → some m ≡ numbered h
    → numbered h ≡ numbered (created h)
kept_created m none e = cc
kept_created m (some l) e = refl

fresh_created : (h : Option (List Entry)) → none ≡ numbered h → some [] ≡ numbered (created h)
unfolding number
fresh_created none e = refl
fresh_created (some l) e = cc

nothing_added :
    (x : Entry) (h : Option (List Entry)) → none ≡ numbered h → numbered h ≡ numbered (added x h)
nothing_added x none e = refl
nothing_added x (some l) e = cc

one_added :
    (m : List Message) (x : Entry) (h : Option (List Entry))
    → some m ≡ numbered h
    → some (
        m
        ++ record { offset = length m; key = x.key; value = x.value; timestamp = x.timestamp } ∷ [])
      ≡ numbered (added x h)
one_added m x none e = cc
one_added m x (some l) e =
    let same : m ≡ number 0 l = cc in
    rw (same, length-number 0 l, number-append 0 l x)
      (let z : 0 + length l ≡ length l = omega arith in rw z refl)

-- Where `t` is the topic.
there :
    (t topic : Text) {o : Option InMemoryTopic} (s : MessageStore)
    → list_eq.beq t topic ≡ true
    → find s t ≡ o
    → find s topic ≡ o
there t topic s p e = ap (λ u. find s u) (sym ((list_eq.beq_iff t topic).0 p)) ∙ e

module _ (p partition : ℕ) (k w : List ℕ) (now : ℕ) where
  view-appended_ne :
      nat_eq.beq p partition ≡ false
      → (x : InMemoryTopic) (h : Option (List Entry)) → view_of partition (some x) ≡ numbered h
      → view_of partition (some (append_message p k w now x)) ≡ numbered h
  unfolding append_message
  view-appended_ne q x h v =
      rw
        (
          find-put x.partitions p partition (
              or_empty (find x.partitions p)
              ++ record {
                offset = length (or_empty (find x.partitions p));
                key = k;
                value = w;
                timestamp = now;
              }
                ∷ []),
          q,
        )
        v

  view-appended :
      nat_eq.beq p partition ≡ true
      → (x : InMemoryTopic) (h : Option (List Entry)) → view_of partition (some x) ≡ numbered h
      → view_of partition (some (append_message p k w now x))
        ≡ numbered (added (record { key = k; value = w; timestamp = now }) h)
  unfolding append_message
  view-appended q x h v =
      let msgs = or_empty (find x.partitions p) in
      let same : msgs ≡ or_empty (find x.partitions partition) =
        ap (λ i. or_empty (find x.partitions i)) ((nat_eq.beq_iff p partition).0 q) in
      rw
        (
          find-put x.partitions p partition
              (msgs ++ record { offset = length msgs; key = k; value = w; timestamp = now } ∷ []),
          q,
        )
        (one_added msgs (record { key = k; value = w; timestamp = now }) h
          (ap (λ l. some l) same ∙ v))

module _ (topic : Text) (partition : ℕ) where
  view-or_new :
      (t : Text) (n : ℕ) (s : MessageStore) (o : Option InMemoryTopic) (h : Option (List Entry))
      → find s t ≡ o
      → view topic partition s ≡ numbered h
      → view topic partition (or_new o t n s) ≡ numbered (if beq_list t topic then created h else h)
  unfolding view number
  view-or_new t n s (some x) h e v = elim (Bool-cases (list_eq.beq t topic)) [
    | inr p ↦ rw p v
    | inl p ↦ rw p (v ∙ kept_created _ h (ap (view_of partition) (sym (there t topic s p e)) ∙ v))
  ]
  view-or_new t n s none h e v = elim (Bool-cases (list_eq.beq t topic)) [
    | inr p ↦
        rw (p, find-put s t topic (record { name = t; partitions = empty_partitions n 0 }), p) v
    | inl p ↦
        rw
          (
            p,
            find-put s t topic (record { name = t; partitions = empty_partitions n 0 }),
            p,
            or_empty-empty_partitions n 0 partition,
          )
          (fresh_created h (ap (view_of partition) (sym (there t topic s p e)) ∙ v))
  ]

  view-produced :
      (t : Text) (p' : ℕ) (k w : List ℕ) (now : ℕ) (s : MessageStore) (o : Option InMemoryTopic)
      (h : Option (List Entry))
      → find s t ≡ o
      → view topic partition s ≡ numbered h
      → view topic partition (produced o t p' k w now s).1
        ≡ numbered (step topic partition (produces t p' k w now) h)
  unfolding view step
  view-produced t p' k w now s none h e v = elim (Bool-cases (list_eq.beq t topic)) [
    | inr p ↦ rw p v
    | inl p ↦ elim (Bool-cases (nat_eq.beq p' partition)) [
      | inr q ↦ rw (p, q) v
      | inl q ↦
          rw (p, q) (v ∙ nothing_added _ h (ap (view_of partition) (sym (there t topic s p e)) ∙ v))
    ]
  ]
  view-produced t p' k w now s (some x) h e v = elim (Bool-cases (list_eq.beq t topic)) [
    | inr p ↦ rw (p, find-put s t topic (append_message p' k w now x), p) v
    | inl p ↦
        let here = ap (view_of partition) (sym (there t topic s p e)) ∙ v in
        elim (Bool-cases (nat_eq.beq p' partition)) [
          | inr q ↦
              rw (p, q, find-put s t topic (append_message p' k w now x), p)
                (view-appended_ne p' partition k w now q x h here)
          | inl q ↦
              rw (p, q, find-put s t topic (append_message p' k w now x), p)
                (view-appended p' partition k w now q x h here)
        ]
  ]

  view-deleted :
      (t : Text) (s : MessageStore) (h : Option (List Entry))
      → view topic partition s ≡ numbered h
      → view topic partition (remove s t) ≡ numbered (if beq_list t topic then none else h)
  unfolding view
  view-deleted t s h v = elim (Bool-cases (list_eq.beq t topic)) [
    | inl p ↦ rw (p, find-remove s t topic, p) refl
    | inr p ↦ rw (p, find-remove s t topic, p) v
  ]

  pub view-run_call :
      (c : Call) (s : MessageStore) (h : Option (List Entry))
      → view topic partition s ≡ numbered h
      → view topic partition (run_call c s) ≡ numbered (step topic partition c h)
  unfolding run_call step create_topic produce_message get_topic_metadata delete_topic
  view-run_call (creates t n) s h v = view-or_new t n s (find s t) h refl v
  view-run_call (produces t p k w now) s h v = view-produced t p k w now s (find s t) h refl v
  view-run_call (asks []) s h v = v
  view-run_call (asks (t ∷ ts)) s h v = view-or_new t 1 s (find s t) h refl v
  view-run_call (deletes t) s h v = view-deleted t s h v

  view-run_calls :
      (calls : List Call) (s : MessageStore) (h : Option (List Entry))
      → view topic partition s ≡ numbered h
      → view topic partition (run_calls calls s) ≡ numbered (history topic partition calls h)
  unfolding run_calls history
  view-run_calls [] s h v = v
  view-run_calls (c ∷ calls) s h v =
      view-run_calls calls (run_call c s) (step topic partition c h) (view-run_call c s h v)

  -- A partition holds, after any calls on a new store, the entries of its history, numbered from 0.
  pub view-history :
      (calls : List Call)
      → view topic partition (run_calls calls new_in_memory_message_store)
        ≡ numbered (history topic partition calls none)
  unfolding view new_in_memory_message_store find
  view-history calls = view-run_calls calls [] none refl
