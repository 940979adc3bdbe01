-- ===== src/Kafka/Flushes.antt =====
-- The calls of the batch writer of pkg/processor/batch_writer.go over the storage of
-- pkg/kafka/processor_bridge.go, where the topics of all messages exist.
use portask.Prelude.{
  ℕ, zero, suc, ◌+◌, ◌%◌, ◌^◌, ◌≡◌, refl, sym, ap, ◌∙◌, Bool, false, inl, inr, Bool-cases, leb,
  List, [], ◌∷◌, ◌++◌, append-nil, append_assoc, length, subst,
}
use portask.Message.{Text, PortaskMessage}
use portask.Writer.{
  new_batch_writer, start, attempts, after_attempts, flush_batch, flush_locked, write, tick, stop,
}
use portask.Writer.Calls.{Call, writes, ticks, written, run_calls, run_calls-running}
use portask.Kafka.Log.{MessageStore}
use portask.Kafka.Bridge.{store_batch, ProcessorBridge}
use portask.Kafka.Poison.{Exists, AllExist, AllExist-kept, store_batch-Exists}
use portask.Kafka.Stored.{AllExist-append, log, sent_to, sent_to-append, store_batch-log}

-- The first attempt is enough.
attempts-first :
    (now retries : ℕ) (s : MessageStore) (batch : List PortaskMessage)
    → (store_batch now s batch).0 ≡ false
    → attempts (store_batch now) retries s batch ≡ (false, (store_batch now s batch).1)
unfolding attempts
attempts-first now zero s batch e = ap (λ b. (b, (store_batch now s batch).1)) e
attempts-first now (suc retries) s batch e = rw e refl

module _ (topic : Text) (partition now : ℕ) where
  -- What the partition holds and what waits for it.
  unfoldable held : ProcessorBridge → List (List ℕ × List ℕ)
  held b = log topic partition b.storage ++ sent_to topic partition b.buffer

  -- A flush of a bridge that stores all that waits.
  record Flushed (b : ProcessorBridge) (out : Bool × ProcessorBridge) : Type 0 where
    succeeds : out.0 ≡ false
    emptied : out.1.buffer ≡ []
    stores : log topic partition out.1.storage ≡ held b
    exists : (u : Text) → Exists b.storage u → Exists out.1.storage u

  flush_batch-Flushed :
      (batch : List PortaskMessage) (b : ProcessorBridge)
      → b.buffer ≡ batch
      → AllExist b.storage batch
      → Flushed b (flush_batch (store_batch now) batch b)
  unfolding flush_batch after_attempts held sent_to
  flush_batch-Flushed [] b e h = record {
    succeeds = refl;
    emptied = e;
    stores =
        sym (append-nil (log topic partition b.storage))
        ∙ ap (λ l. log topic partition b.storage ++ sent_to topic partition l) (sym e);
    exists = λ u k. k;
  }
  flush_batch-Flushed (m ∷ batch) b e h =
      let (works, grows) = store_batch-log topic partition (m ∷ batch) now b.storage h in
      rw (attempts-first now b.max_retries b.storage (m ∷ batch) works) (record {
        succeeds = refl;
        emptied = refl;
        stores =
            grows ∙ ap (λ l. log topic partition b.storage ++ sent_to topic partition l) (sym e);
        exists = λ u. (store_batch-Exists (m ∷ batch) now b.storage u).1;
      })

  -- A bridge whose topics exist, and what it holds.
  record Going (b b' : ProcessorBridge) (l : List PortaskMessage) : Type 0 where
    holds : held b' ≡ held b ++ sent_to topic partition l
    waits : AllExist b'.storage b'.buffer
    exists : (u : Text) → Exists b.storage u → Exists b'.storage u

  flush-Going :
      (b : ProcessorBridge) (out : Bool × ProcessorBridge) → Flushed b out → Going b out.1 []
  unfolding held sent_to AllExist
  flush-Going b out f = record {
    holds =
        ap (λ l. log topic partition out.1.storage ++ sent_to topic partition l) f.emptied
        ∙ append-nil (log topic partition out.1.storage)
        ∙ f.stores
        ∙ sym (append-nil (held b));
    waits = subst (λ l. AllExist out.1.storage l) (sym f.emptied) tt;
    exists = f.exists;
  }

  added-Going :
      (m : PortaskMessage) (n : ℕ) (b : ProcessorBridge)
      → AllExist b.storage b.buffer
      → Exists b.storage m.topic
      → Going b (record b { buffer = b.buffer ++ m ∷ []; message_count = n }) (m ∷ [])
  unfolding held
  added-Going m n b h k = record {
    holds =
        ap (λ l. log topic partition b.storage ++ l)
          (sent_to-append topic partition b.buffer (m ∷ []))
        ∙ sym (
            append_assoc (log topic partition b.storage) (sent_to topic partition b.buffer)
              (sent_to topic partition (m ∷ [])));
    waits = AllExist-append b.storage b.buffer m h k;
    exists = λ u h. h;
  }

  then_Going :
      {b b' b'' : ProcessorBridge} (l l' : List PortaskMessage)
      → Going b b' l
      → Going b' b'' l'
      → Going b b'' (l ++ l')
  then_Going {b} l l' g h = record {
    holds =
        h.holds
        ∙ ap (λ k. k ++ sent_to topic partition l') g.holds
        ∙ append_assoc (held b) (sent_to topic partition l) (sent_to topic partition l')
        ∙ ap (λ k. held b ++ k) (sym (sent_to-append topic partition l l'));
    waits = h.waits;
    exists = λ u e. h.exists u (g.exists u e);
  }

  write-Going :
      (m : PortaskMessage) (b : ProcessorBridge)
      → AllExist b.storage b.buffer
      → Exists b.storage m.topic
      → Going b (write (store_batch now) m b).1 (m ∷ [])
  unfolding write flush_locked
  write-Going m b h k =
      let n = (b.message_count + 1) % 2 ^ 64 in
      let b' : ProcessorBridge = record b { buffer = b.buffer ++ m ∷ []; message_count = n } in
      let added = added-Going m n b h k in
      elim (Bool-cases (leb b.batch_size (length (b.buffer ++ m ∷ [])))) [
        | inr p ↦ rw p added
        | inl p ↦ rw p (
            then_Going (m ∷ []) [] added
              (flush-Going b' _ (flush_batch-Flushed b'.buffer b' refl added.waits)))
      ]

  run_calls-Going :
      (calls : List (Call PortaskMessage)) (b : ProcessorBridge)
      → AllExist b.storage b.buffer
      → AllExist b.storage (written calls)
      → Going b (run_calls (store_batch now) calls b) (written calls)
  unfolding run_calls written tick flush_locked AllExist sent_to
  run_calls-Going [] b h k = record {
    holds = sym (append-nil (held b));
    waits = h;
    exists = λ u e. e;
  }
  run_calls-Going (writes m ∷ calls) b h (k, ks) =
      let g = write-Going m b h k in
      let b' = (write (store_batch now) m b).1 in
      let rest = AllExist-kept b.storage b'.storage (written calls) g.exists ks in
      then_Going (m ∷ []) (written calls) g (run_calls-Going calls b' g.waits rest)
  run_calls-Going (ticks ∷ calls) b h k =
      let g = flush-Going b _ (flush_batch-Flushed b.buffer b refl h) in
      let b' = tick (store_batch now) b in
      let rest = AllExist-kept b.storage b'.storage (written calls) g.exists k in
      then_Going [] (written calls) g (run_calls-Going calls b' g.waits rest)

-- Whatever is written to a new bridge that was started, with any ticks in between, if the topics of
-- the messages exist in its storage: each partition holds what it held before and after it, in their
-- order and exactly once, the keys and payloads of the messages written to it up to some place, and
-- the buffer holds the others; and `Stop` succeeds, stores all of them and leaves the buffer empty.
pub run_calls-log :
    (topic : Text) (partition now : ℕ) (s : MessageStore) (batch_size max_retries : ℕ)
    (calls : List (Call PortaskMessage))
    → AllExist s (written calls)
    → let b =
        run_calls (store_batch now) calls (start (new_batch_writer s batch_size max_retries)).1 in
      let out = stop (store_batch now) b in
      let all = log topic partition s ++ sent_to topic partition (written calls) in
      (log topic partition b.storage ++ sent_to topic partition b.buffer ≡ all)
      × (out.0 ≡ false)
      × (log topic partition out.1.storage ≡ all)
      × (out.1.buffer ≡ [])
unfolding start new_batch_writer held sent_to AllExist stop flush_locked
run_calls-log topic partition now s batch_size max_retries calls h =
    let b0 : ProcessorBridge = (start (new_batch_writer s batch_size max_retries)).1 in
    let b = run_calls (store_batch now) calls b0 in
    let g = run_calls-Going topic partition now calls b0 tt h in
    let all =
      g.holds
      ∙ ap (λ l. l ++ sent_to topic partition (written calls))
          (append-nil (log topic partition s)) in
    let f =
      flush_batch-Flushed topic partition now b.buffer (record b { running = false }) refl
        g.waits in
    rw (run_calls-running (store_batch now) calls b0) (all, f.succeeds, f.stores ∙ all, f.emptied)
