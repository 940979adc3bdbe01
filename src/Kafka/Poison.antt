-- ===== src/Kafka/Poison.antt =====
-- What a message to a topic that does not exist does to a batch in `StoreBatch` of
-- pkg/kafka/processor_bridge.go, and to the attempts of pkg/processor/batch_writer.go to store it.
use native.Mathlib.Nat.{suc-mul}
use portask.Prelude.{
  ℕ, zero, suc, ◌+◌, ◌*◌, ◌==◌, ◌≡◌, refl, sym, ap, ◌∙◌, subst, true, inl, inr, ◌⊎◌, Bool-cases,
  if◌then◌else◌, Option, none, some, List, [], ◌∷◌, ◌++◌, length, length-append, arith,
}
use portask.Prelude.Maps.{nat_eq, list_eq, beq_list, find, find-put}
use portask.Message.{Text, PortaskMessage}
use portask.Writer.{attempts}
use portask.Kafka.Log.{
  MessageStore, produce_message, produced, or_empty, append_message, InMemoryTopic,
}
use portask.Kafka.Bridge.{store_batch}

-- The topic exists.
unfoldable pub Exists : MessageStore → Text → Type 0
Exists s topic = (t : InMemoryTopic) × (find s topic ≡ some t)

unfoldable pub AllExist : MessageStore → List PortaskMessage → Type 0
AllExist s [] = Unit {0}
AllExist s (m ∷ batch) = Exists s m.topic × AllExist s batch

unfoldable pub Missing : MessageStore → Text → Type 0
Missing s topic = find s topic ≡ none

pub not_both : {o : Option InMemoryTopic} {t : InMemoryTopic} → o ≡ none → o ≡ some t → ⊥
not_both e f = cc

pub found_produced :
    (o : Option InMemoryTopic) (m : PortaskMessage) (now : ℕ) (s : MessageStore) (topic : Text)
    → find s m.topic ≡ o
    → (Missing s topic → Missing (produced o m.topic m.partition m.key m.payload now s).1 topic)
      × (Exists s topic → Exists (produced o m.topic m.partition m.key m.payload now s).1 topic)
unfolding Missing Exists
found_produced none m now s topic e = ((λ h. h), λ h. h)
found_produced (some t) m now s topic e =
    let t' = append_message m.partition m.key m.payload now t in
    elim (Bool-cases (list_eq.beq m.topic topic)) [
      | inl p ↦ (
        (λ h. absurd (not_both (ap (λ u. find s u) ((list_eq.beq_iff m.topic topic).0 p) ∙ h) e)),
        λ h. (t', rw (find-put s m.topic topic t', p) refl),
      )
      | inr p ↦ (
        (λ h. rw (find-put s m.topic topic t', p) h),
        λ (u, h). (u, rw (find-put s m.topic topic t', p) h),
      )
    ]

pub stored_one :
    (o : Option InMemoryTopic) (m : PortaskMessage) (batch : List PortaskMessage) (now : ℕ)
    (s : MessageStore)
    → find s m.topic ≡ o
    → ((o ≡ none) × (store_batch now s (m ∷ batch) ≡ (true, s)))
      ⊎ ((t : InMemoryTopic) × (o ≡ some t)
          × (store_batch now s (m ∷ batch)
              ≡ store_batch now (produced o m.topic m.partition m.key m.payload now s).1 batch))
unfolding store_batch produce_message
stored_one none m batch now s e = inl (refl, rw e refl)
stored_one (some t) m batch now s e = inr (t, refl, rw e refl)

pub store_batch-Exists :
    (batch : List PortaskMessage) (now : ℕ) (s : MessageStore) (topic : Text)
    → (Missing s topic → Missing (store_batch now s batch).1 topic)
      × (Exists s topic → Exists (store_batch now s batch).1 topic)
unfolding store_batch
store_batch-Exists [] now s topic = ((λ h. h), λ h. h)
store_batch-Exists (m ∷ batch) now s topic = elim (stored_one (find s m.topic) m batch now s refl) [
  | inl (o, e) ↦ (
    (λ h. subst (λ r. Missing r.1 topic) (sym e) h),
    λ h. subst (λ r. Exists r.1 topic) (sym e) h,
  )
  | inr (t, o, e) ↦
      let s' = (produced (find s m.topic) m.topic m.partition m.key m.payload now s).1 in
      let (missing, exists) = found_produced (find s m.topic) m now s topic refl in
      let (missing', exists') = store_batch-Exists batch now s' topic in
      (
        (λ h. subst (λ r. Missing r.1 topic) (sym e) (missing' (missing h))),
        λ h. subst (λ r. Exists r.1 topic) (sym e) (exists' (exists h)),
      )
]

pub AllExist-kept :
    (s s' : MessageStore) (batch : List PortaskMessage)
    → ((topic : Text) → Exists s topic → Exists s' topic)
    → AllExist s batch
    → AllExist s' batch
unfolding AllExist
AllExist-kept s s' [] k h = h
AllExist-kept s s' (m ∷ batch) k (h, hs) = (k m.topic h, AllExist-kept s s' batch k hs)

module _ (topic : Text) (partition : ℕ) where
  abbrev pub size_of : Option InMemoryTopic → ℕ
  size_of none = 0
  size_of (some t) = length (or_empty (find t.partitions partition))

  -- The number of messages in the partition.
  unfoldable pub size : MessageStore → ℕ
  size s = size_of (find s topic)

  -- The number of messages to the partition.
  unfoldable pub share : List PortaskMessage → ℕ
  share [] = 0
  share (m ∷ batch) =
      (if beq_list m.topic topic then if m.partition == partition then 1 else 0 else 0)
      + share batch

  size_of-append_message :
      (t : InMemoryTopic) (p : ℕ) (key value : List ℕ) (now : ℕ)
      → size_of (some (append_message p key value now t))
        ≡ (if p == partition then 1 else 0) + size_of (some t)
  unfolding append_message
  size_of-append_message t p key value now =
      let msgs = or_empty (find t.partitions p) in
      let added =
        msgs ++ record { offset = length msgs; key = key; value = value; timestamp = now } ∷ [] in
      elim (Bool-cases (nat_eq.beq p partition)) [
        | inr q ↦ rw (find-put t.partitions p partition added, q) (omega arith)
        | inl q ↦
            let same : msgs ≡ or_empty (find t.partitions partition) =
              ap (λ i. or_empty (find t.partitions i)) ((nat_eq.beq_iff p partition).0 q) in
            rw (find-put t.partitions p partition added, q)
              (omega (
                arith,
                length-append {0} msgs (
                    record { offset = length msgs; key = key; value = value; timestamp = now }
                    ∷ []),
                ap (λ l. length l) same,
              ))
      ]

  size-produced :
      (t : InMemoryTopic) (m : PortaskMessage) (now : ℕ) (s : MessageStore)
      → find s m.topic ≡ some t
      → size (produced (some t) m.topic m.partition m.key m.payload now s).1
        ≡ (if beq_list m.topic topic then if m.partition == partition then 1 else 0 else 0) + size s
  unfolding size
  size-produced t m now s e =
      let t' = append_message m.partition m.key m.payload now t in
      elim (Bool-cases (list_eq.beq m.topic topic)) [
        | inr p ↦ rw (find-put s m.topic topic t', p) (omega arith)
        | inl p ↦
            let here : find s topic ≡ some t =
              ap (λ u. find s u) (sym ((list_eq.beq_iff m.topic topic).0 p)) ∙ e in
            rw (find-put s m.topic topic t', p, here)
              (size_of-append_message t m.partition m.key m.payload now)
      ]

  -- A batch whose message `p` stops it after the messages of `front`.
  store_batch_stops :
      (front rest : List PortaskMessage) (p : PortaskMessage) (now : ℕ) (s : MessageStore)
      → AllExist s front
      → Missing s p.topic
      → ((store_batch now s (front ++ p ∷ rest)).0 ≡ true)
        × (size (store_batch now s (front ++ p ∷ rest)).1 ≡ share front + size s)
  unfolding AllExist Missing Exists share
  store_batch_stops [] rest p now s h k = elim (stored_one (find s p.topic) p rest now s refl) [
    | inl (o, e) ↦ (ap (λ r. r.0) e, ap (λ r. size r.1) e ∙ omega arith)
    | inr (t, o, e) ↦ absurd (not_both k o)
  ]
  store_batch_stops (m ∷ front) rest p now s ((t, h), hs) k =
      elim (stored_one (find s m.topic) m (front ++ p ∷ rest) now s refl) [
        | inl (o, e) ↦ absurd (not_both o h)
        | inr (t', o, e) ↦
            let s' = (produced (find s m.topic) m.topic m.partition m.key m.payload now s).1 in
            let kept = λ (u : Text). found_produced (find s m.topic) m now s u refl in
            let (fails, grows) =
              store_batch_stops front rest p now s' (AllExist-kept s s' front (λ u. (kept u).1) hs)
                ((kept p.topic).0 k) in
            let one =
              ap (λ o. size (produced o m.topic m.partition m.key m.payload now s).1) h
              ∙ size-produced t m now s h in
            (ap (λ r. r.0) e ∙ fails, ap (λ r. size r.1) e ∙ omega (arith, grows, one))
      ]

  -- The messages of `front` can be stored, and `p` cannot.
  unfoldable pub Stuck : List PortaskMessage → PortaskMessage → MessageStore → Type 0
  Stuck front p s = AllExist s front × Missing s p.topic

  pub attempts_stop :
      (front rest : List PortaskMessage) (p : PortaskMessage) (now retries : ℕ) (s : MessageStore)
      → Stuck front p s
      → let r = attempts (store_batch now) retries s (front ++ p ∷ rest) in
        (r.0 ≡ true) × Stuck front p r.1 × (size r.1 ≡ suc retries * share front + size s)
  unfolding attempts Stuck
  attempts_stop front rest p now zero s (h, k) =
      let (fails, grows) = store_batch_stops front rest p now s h k in
      let batch = front ++ p ∷ rest in
      (
        fails,
        (
          AllExist-kept s _ front (λ u. (store_batch-Exists batch now s u).1) h,
          (store_batch-Exists batch now s p.topic).0 k,
        ),
        omega (arith, grows),
      )
  attempts_stop front rest p now (suc retries) s (h, k) =
      let (fails, grows) = store_batch_stops front rest p now s h k in
      let batch = front ++ p ∷ rest in
      let s' = (store_batch now s batch).1 in
      let (again, stuck, more) = attempts_stop front rest p now retries s' (
        AllExist-kept s s' front (λ u. (store_batch-Exists batch now s u).1) h,
        (store_batch-Exists batch now s p.topic).0 k,
      ) in
      rw fails (again, stuck, omega (arith, grows, more, suc-mul (suc retries) (share front)))
