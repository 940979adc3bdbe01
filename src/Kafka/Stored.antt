-- ===== src/Kafka/Stored.antt =====
-- The batch writer of pkg/processor/batch_writer.go over pkg/kafka/processor_bridge.go, where the
-- topics of all messages exist.
use portask.Prelude.{
  ℕ, ◌==◌, ◌≡◌, refl, sym, ap, ◌∙◌, false, inl, inr, Bool-cases, if◌then◌else◌, Option, none, some,
  List, [], ◌∷◌, ◌++◌, append-nil, append_assoc, length,
}
use portask.Prelude.Maps.{nat_eq, list_eq, beq_list, find, find-put}
use portask.Message.{Text, PortaskMessage}
use portask.Kafka.Log.{Message, InMemoryTopic, MessageStore, or_empty, append_message, produced}
use portask.Kafka.Bridge.{store_batch}
use portask.Kafka.Poison.{Exists, AllExist, AllExist-kept, not_both, found_produced, stored_one}

pub AllExist-append :
    (s : MessageStore) (l : List PortaskMessage) (m : PortaskMessage)
    → AllExist s l
    → Exists s m.topic
    → AllExist s (l ++ m ∷ [])
unfolding AllExist
AllExist-append s [] m h k = (k, tt)
AllExist-append s (x ∷ l) m (h, hs) k = (h, AllExist-append s l m hs k)

-- The keys and values of messages.
unfoldable pub pairs : List Message → List (List ℕ × List ℕ)
pairs [] = []
pairs (m ∷ msgs) = (m.key, m.value) ∷ pairs msgs

pairs-append : (xs ys : List Message) → pairs (xs ++ ys) ≡ pairs xs ++ pairs ys
unfolding pairs
pairs-append [] ys = refl
pairs-append (m ∷ xs) ys = ap (λ l. (m.key, m.value) ∷ l) (pairs-append xs ys)

module _ (topic : Text) (partition : ℕ) where
  abbrev log_of : Option InMemoryTopic → List (List ℕ × List ℕ)
  log_of none = []
  log_of (some t) = pairs (or_empty (find t.partitions partition))

  -- The keys and values in the partition, oldest first.
  unfoldable pub log : MessageStore → List (List ℕ × List ℕ)
  log s = log_of (find s topic)

  abbrev one : PortaskMessage → List (List ℕ × List ℕ)
  one m =
      if beq_list m.topic topic
      then if m.partition == partition then (m.key, m.payload) ∷ [] else []
      else []

  -- The keys and payloads of the messages to the partition.
  unfoldable pub sent_to : List PortaskMessage → List (List ℕ × List ℕ)
  sent_to [] = []
  sent_to (m ∷ batch) = one m ++ sent_to batch

  pub sent_to-append : (xs ys : List PortaskMessage) → sent_to (xs ++ ys) ≡ sent_to xs ++ sent_to ys
  unfolding sent_to
  sent_to-append [] ys = refl
  sent_to-append (m ∷ xs) ys =
      ap (λ l. one m ++ l) (sent_to-append xs ys)
      ∙ sym (append_assoc (one m) (sent_to xs) (sent_to ys))

  log_of-append_message :
      (t : InMemoryTopic) (p : ℕ) (key value : List ℕ) (now : ℕ)
      → log_of (some (append_message p key value now t))
        ≡ log_of (some t) ++ (if p == partition then (key, value) ∷ [] else [])
  unfolding append_message pairs
  log_of-append_message t p key value now =
      let msgs = or_empty (find t.partitions p) in
      let m : Message = record {
        offset = length msgs;
        key = key;
        value = value;
        timestamp = now;
      } in
      elim (Bool-cases (nat_eq.beq p partition)) [
        | inr q ↦ rw (find-put t.partitions p partition (msgs ++ m ∷ []), q) (sym (append-nil _))
        | inl q ↦
            rw (find-put t.partitions p partition (msgs ++ m ∷ []), q)
              (pairs-append msgs (m ∷ [])
                ∙ ap (λ i. pairs (or_empty (find t.partitions i)) ++ (key, value) ∷ [])
                    ((nat_eq.beq_iff p partition).0 q))
      ]

  log-produced :
      (t : InMemoryTopic) (m : PortaskMessage) (now : ℕ) (s : MessageStore)
      → find s m.topic ≡ some t
      → log (produced (some t) m.topic m.partition m.key m.payload now s).1 ≡ log s ++ one m
  unfolding log
  log-produced t m now s e =
      let t' = append_message m.partition m.key m.payload now t in
      elim (Bool-cases (list_eq.beq m.topic topic)) [
        | inr p ↦ rw (find-put s m.topic topic t', p) (sym (append-nil _))
        | inl p ↦
            let here : find s topic ≡ some t =
              ap (λ u. find s u) (sym ((list_eq.beq_iff m.topic topic).0 p)) ∙ e in
            rw (find-put s m.topic topic t', p, here)
              (log_of-append_message t m.partition m.key m.payload now)
      ]

  -- A batch of messages to topics that exist is stored whole.
  pub store_batch-log :
      (batch : List PortaskMessage) (now : ℕ) (s : MessageStore)
      → AllExist s batch
      → ((store_batch now s batch).0 ≡ false)
        × (log (store_batch now s batch).1 ≡ log s ++ sent_to batch)
  unfolding AllExist Exists sent_to store_batch
  store_batch-log [] now s h = (refl, sym (append-nil (log s)))
  store_batch-log (m ∷ batch) now s ((t, h), hs) =
      elim (stored_one (find s m.topic) m batch now s refl) [
        | inl (o, e) ↦ absurd (not_both o h)
        | inr (t', o, e) ↦
            let s' = (produced (find s m.topic) m.topic m.partition m.key m.payload now s).1 in
            let kept =
              AllExist-kept s s' batch (λ u. (found_produced (find s m.topic) m now s u refl).1)
                hs in
            let (works, grows) = store_batch-log batch now s' kept in
            let first =
              ap (λ o. log (produced o m.topic m.partition m.key m.payload now s).1) h
              ∙ log-produced t m now s h in
            (
              ap (λ r. r.0) e ∙ works,
              ap (λ r. log r.1) e
                  ∙ grows
                  ∙ ap (λ l. l ++ sent_to batch) first
                  ∙ append_assoc (log s) (one m) (sent_to batch),
            )
      ]
