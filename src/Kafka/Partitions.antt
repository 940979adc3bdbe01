-- ===== src/Kafka/Partitions.antt =====
-- Where the messages of produce requests arrive, through pkg/kafka/translator.go,
-- pkg/processor/processor.go, pkg/kafka/processor_bridge.go, pkg/processor/batch_writer.go and the log
-- of pkg/kafka/protocol.go.
use portask.Prelude.{
  ℕ, ◌<◌, ◌≡◌, refl, ap, ◌∙◌, Bool, true, false, inl, inr, ◌⊎◌, Bool-cases, Option, none, some,
  List, [], ◌∷◌, arith,
}
use portask.Prelude.Maps.{nat_eq, list_eq, find}
use portask.Message.{Text, PortaskMessage}
use portask.Writer.{new_batch_writer, start, tick}
use portask.Writer.Preserves.{AllFit, Sound, tick-Sound, write-Sound}
use portask.Processor.{
  ProcessorConfig, Task, ProcessResult, success, failure, validate_message, processed, if_valid,
  process_single_message, process_message,
}
use portask.Processor.Results.{processed-Kept}
use portask.Kafka.Log.{
  MessageStore, StoreResult, ok, topic_not_found, no_topics_requested, panic, produce_message,
  new_in_memory_message_store, Message,
}
use portask.Kafka.Views.{view-run_call}
use portask.Kafka.History.{
  Call, creates, produces, asks, deletes, run_call, Entry, number, numbered, view, step,
}
use portask.Kafka.Bridge.{
  or_stop, store_batch, ProcessorBridge, new_processor_bridge, written, produce_task, produce_if,
  produce,
}

pub data Event : Type 0 where
  request : Bool → Task → ℕ → ℕ → Text → ℕ → List ℕ → Event
  tick_at : ℕ → Event
  create : Text → ℕ → Event
  metadata : List Text → Event
  remove : Text → Event

module _ (runes : Text → List ℕ) (decimal : ℕ → Text) (config : ProcessorConfig) where
  -- Produce requests, ticks of the writer, and requests that create, ask for and delete topics.
  unfoldable pub run_event : Event → ProcessorBridge → ProcessorBridge
  run_event (request answered pooled id now topic partition message_set) b =
      (produce runes decimal config answered pooled id now topic partition message_set b).1
  run_event (tick_at now) b = tick (store_batch now) b
  run_event (create topic partitions) b = record b {
    storage = run_call (creates topic partitions) b.storage;
  }
  run_event (metadata topics) b = record b { storage = run_call (asks topics) b.storage }
  run_event (remove topic) b = record b { storage = run_call (deletes topic) b.storage }

  unfoldable pub run_events : List Event → ProcessorBridge → ProcessorBridge
  run_events [] b = b
  run_events (e ∷ events) b = run_events events (run_event e b)

module _ (partition : ℕ) where
  -- A partition that does not exist, or has no message.
  unfoldable pub Blank : Option (List Message) → Type 0
  Blank o = (o ≡ none) ⊎ (o ≡ some [])

  unfoldable AllBlank : MessageStore → Type 0
  AllBlank s = (topic : Text) → Blank (view topic partition s)

  -- A call after which a partition without entries is still without.
  unfoldable Spares : Call → Type 0
  Spares c =
      (topic : Text) (h : Option (List Entry))
      → (h ≡ none) ⊎ (h ≡ some [])
      → (step topic partition c h ≡ none) ⊎ (step topic partition c h ≡ some [])

  run_call-AllBlank :
      (c : Call) (s : MessageStore) → Spares c → AllBlank s → AllBlank (run_call c s)
  unfolding Spares AllBlank Blank number
  run_call-AllBlank c s p h topic =
      let (h', d, v') : (h' : Option (List Entry)) × ((h' ≡ none) ⊎ (h' ≡ some []))
          × (view topic partition s ≡ numbered h') =
        elim (h topic) [ inl e ↦ (none, inl refl, e) | inr e ↦ (some [], inr refl, e) ] in
      let v = view-run_call topic partition c s h' v' in
      elim (p topic h' d) [ inl e ↦ inl (v ∙ ap numbered e) | inr e ↦ inr (v ∙ ap numbered e) ]

  creates-Spares : (t : Text) (n : ℕ) → Spares (creates t n)
  unfolding Spares step
  creates-Spares t n topic h (inl e) = rw e (elim (Bool-cases (list_eq.beq t topic)) [
    | inl p ↦ rw p (inr refl)
    | inr p ↦ rw p (inl refl)
  ])
  creates-Spares t n topic h (inr e) = rw e (elim (Bool-cases (list_eq.beq t topic)) [
    | inl p ↦ rw p (inr refl)
    | inr p ↦ rw p (inr refl)
  ])

  asks-Spares : (ts : List Text) → Spares (asks ts)
  unfolding Spares step
  asks-Spares [] topic h e = e
  asks-Spares (t ∷ ts) topic h (inl e) = rw e (elim (Bool-cases (list_eq.beq t topic)) [
    | inl p ↦ rw p (inr refl)
    | inr p ↦ rw p (inl refl)
  ])
  asks-Spares (t ∷ ts) topic h (inr e) = rw e (elim (Bool-cases (list_eq.beq t topic)) [
    | inl p ↦ rw p (inr refl)
    | inr p ↦ rw p (inr refl)
  ])

  deletes-Spares : (t : Text) → Spares (deletes t)
  unfolding Spares step
  deletes-Spares t topic h e = elim (Bool-cases (list_eq.beq t topic)) [
    | inl p ↦ rw p (inl refl)
    | inr p ↦ rw p e
  ]

  produces-Spares :
      (t : Text) (p : ℕ) (key value : List ℕ) (now : ℕ)
      → nat_eq.beq p partition ≡ false
      → Spares (produces t p key value now)
  unfolding Spares step
  produces-Spares t p key value now q topic h e =
      rw q (elim (Bool-cases (list_eq.beq t topic)) [ inl b ↦ rw b e | inr b ↦ rw b e ])

  -- A message that is written goes to another partition.
  unfoldable Elsewhere : PortaskMessage → Type 0
  Elsewhere m = nat_eq.beq m.partition partition ≡ false

  or_stop-AllBlank :
      (r : StoreResult ℕ) (s : MessageStore) (rest : Bool × MessageStore)
      → AllBlank s
      → AllBlank rest.1
      → AllBlank (or_stop r s rest).1
  or_stop-AllBlank (ok o) s rest h k = k
  or_stop-AllBlank topic_not_found s rest h k = h
  or_stop-AllBlank no_topics_requested s rest h k = h
  or_stop-AllBlank panic s rest h k = h

  store_batch-AllBlank :
      (now : ℕ) (s : MessageStore) (batch : List PortaskMessage)
      → AllBlank s
      → AllFit Elsewhere AllBlank batch
      → AllBlank (store_batch now s batch).1
  unfolding store_batch AllFit Elsewhere run_call
  store_batch-AllBlank now s [] h k = h
  store_batch-AllBlank now s (m ∷ batch) h (e, k) =
      let once =
        run_call-AllBlank (produces m.topic m.partition m.key m.payload now) s
          (produces-Spares m.topic m.partition m.key m.payload now e) h in
      or_stop-AllBlank _ _ _ once (
        store_batch-AllBlank now (produce_message m.topic m.partition m.key m.payload now s).1 batch
          once k)

  unfoldable SoundBridge : ProcessorBridge → Type 0
  SoundBridge b = Sound Elsewhere AllBlank b

  module _ (runes : Text → List ℕ) (decimal : ℕ → Text) (config : ProcessorConfig)
      (other : 0 < partition) where
    written-Sound :
        (now : ℕ) (r : ProcessResult PortaskMessage) (t : Task) (b : ProcessorBridge)
        → SoundBridge b
        → SoundBridge (written now (if_valid runes decimal config r t) b).1
    unfolding SoundBridge Elsewhere
    written-Sound now (failure e) t b h = h
    written-Sound now (success m) t b h =
        write-Sound Elsewhere AllBlank (store_batch now) (store_batch-AllBlank now)
          (processed runes decimal config t) b h
          (ap (λ p. nat_eq.beq p partition) (processed-Kept runes decimal config t).partition
            ∙ ground (arith, other))

    produce_if-Sound :
        (answered : Bool) (now : ℕ) (o : Option Task) (b : ProcessorBridge)
        → SoundBridge b
        → SoundBridge (produce_if runes decimal config answered now o b).1
    unfolding produce_task process_message process_single_message
    produce_if-Sound answered now none b h = h
    produce_if-Sound true now (some t) b h = written-Sound now (validate_message t) t b h
    produce_if-Sound false now (some t) b h = h

    run_event-Sound :
        (e : Event) (b : ProcessorBridge)
        → SoundBridge b
        → SoundBridge (run_event runes decimal config e b)
    unfolding run_event produce SoundBridge Sound
    run_event-Sound (request answered pooled id now topic p message_set) b h =
        produce_if-Sound answered now _ b h
    run_event-Sound (tick_at now) b h =
        tick-Sound Elsewhere AllBlank (store_batch now) (store_batch-AllBlank now) b h
    run_event-Sound (create topic n) b h =
        (run_call-AllBlank (creates topic n) b.storage (creates-Spares topic n) h.0, h.1)
    run_event-Sound (metadata topics) b h =
        (run_call-AllBlank (asks topics) b.storage (asks-Spares topics) h.0, h.1)
    run_event-Sound (remove topic) b h =
        (run_call-AllBlank (deletes topic) b.storage (deletes-Spares topic) h.0, h.1)

    run_events-Sound :
        (events : List Event) (b : ProcessorBridge)
        → SoundBridge b
        → SoundBridge (run_events runes decimal config events b)
    unfolding run_events
    run_events-Sound [] b h = h
    run_events-Sound (e ∷ events) b h = run_events-Sound events _ (run_event-Sound e b h)

-- Whatever partitions the produce requests name, with any ticks of the writer and any topics created,
-- asked for and deleted in between, from an empty log on: no partition of any topic but 0 ever holds
-- a message.
pub run_events-Blank :
    (runes : Text → List ℕ) (decimal : ℕ → Text) (config : ProcessorConfig) (events : List Event)
    (topic : Text) (partition : ℕ)
    → 0 < partition
    → Blank partition (
        view topic partition
          (run_events runes decimal config events
            (new_processor_bridge new_in_memory_message_store)).storage)
unfolding new_processor_bridge new_in_memory_message_store SoundBridge Sound AllBlank AllFit view
    find Blank new_batch_writer start
run_events-Blank runes decimal config events topic partition h =
    (run_events-Sound partition runes decimal config h events
        (new_processor_bridge new_in_memory_message_store) ((λ t. inl refl), tt)).0
      topic
