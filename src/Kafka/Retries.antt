-- ===== src/Kafka/Retries.antt =====
-- The batch writer of pkg/processor/batch_writer.go over pkg/kafka/processor_bridge.go, with a message
-- in its buffer whose topic does not exist.
use native.Mathlib.Nat.{suc-mul}
use portask.Prelude.{
  ℕ, suc, ◌+◌, ◌*◌, ◌%◌, ◌^◌, ◌≤◌, ◌≡◌, refl, sym, ap, ◌∙◌, subst, Bool, true, false, inl, inr,
  Bool-cases, leb, List, [], ◌∷◌, ◌++◌, append-nil, append_assoc, length, arith,
}
use portask.Message.{Text, PortaskMessage}
use portask.Writer.{attempts, after_attempts, flush_batch, flush_locked, write, tick, stop}
use portask.Writer.Calls.{Call, writes, ticks, written, run_calls}
use portask.Kafka.Log.{MessageStore}
use portask.Kafka.Bridge.{store_batch, ProcessorBridge}
use portask.Kafka.Poison.{AllExist, Missing, size, share, Stuck, attempts_stop}

unfoldable pub tick_count : {M : Type 0} → List (Call M) → ℕ
tick_count [] = 0
tick_count (writes m ∷ calls) = tick_count calls
tick_count (ticks ∷ calls) = suc (tick_count calls)

flush_batch-attempts :
    (front rest : List PortaskMessage) (p : PortaskMessage) (now : ℕ) (b : ProcessorBridge)
    → flush_batch (store_batch now) (front ++ p ∷ rest) b
      ≡ after_attempts
          (store_batch now)
          (attempts (store_batch now) b.max_retries b.storage (front ++ p ∷ rest))
          b
unfolding flush_batch
flush_batch-attempts [] rest p now b = refl
flush_batch-attempts (m ∷ front) rest p now b = refl

failed_attempts :
    (now : ℕ) (r : Bool × MessageStore) (b : ProcessorBridge)
    → r.0 ≡ true
    → after_attempts (store_batch now) r b ≡ (true, record b { storage = r.1 })
unfolding after_attempts
failed_attempts now (true, s) b e = refl
failed_attempts now (false, s) b e = cc

module _ (topic : Text) (partition : ℕ) (front : List PortaskMessage) (p : PortaskMessage)
    (now : ℕ) where
  -- A flush fails, and stores the messages of `front` once in each attempt.
  flush_stops :
      (rest : List PortaskMessage) (b : ProcessorBridge)
      → b.buffer ≡ front ++ p ∷ rest
      → Stuck topic partition front p b.storage
      → (s : MessageStore) × (flush_batch (store_batch now) b.buffer b
          ≡ (true, record b { storage = s }))
        × Stuck topic partition front p s
        × (size topic partition s
            ≡ suc b.max_retries * share topic partition front + size topic partition b.storage)
  flush_stops rest b e h =
      let (fails, stuck, grows) =
        attempts_stop topic partition front rest p now b.max_retries b.storage h in
      let r = attempts (store_batch now) b.max_retries b.storage (front ++ p ∷ rest) in
      (
        r.1,
        ap (λ l. flush_batch (store_batch now) l b) e
            ∙ flush_batch-attempts front rest p now b
            ∙ failed_attempts now r b fails,
        stuck,
        grows,
      )

  -- From one bridge to another: `l` is added to the buffer, and `n` messages at least to the partition.
  record Step (b b' : ProcessorBridge) (l : List PortaskMessage) (n : ℕ) : Type 0 where
    buffer : b'.buffer ≡ b.buffer ++ l
    stuck : Stuck topic partition front p b'.storage
    retries : b'.max_retries ≡ b.max_retries
    running : b'.running ≡ b.running
    grows : n + size topic partition b.storage ≤ size topic partition b'.storage

  tick_stops :
      (rest : List PortaskMessage) (b : ProcessorBridge)
      → b.buffer ≡ front ++ p ∷ rest
      → Stuck topic partition front p b.storage
      → Step b (tick (store_batch now) b) [] (suc b.max_retries * share topic partition front)
  unfolding tick flush_locked
  tick_stops rest b e h =
      let (s, f, stuck, grows) = flush_stops rest b e h in
      subst (λ r. Step b r.1 [] (suc b.max_retries * share topic partition front)) (sym f)
        (record {
          buffer = sym (append-nil b.buffer);
          stuck = stuck;
          retries = refl;
          running = refl;
          grows = omega (arith, grows);
        })

  write_stops :
      (rest : List PortaskMessage) (m : PortaskMessage) (b : ProcessorBridge)
      → b.buffer ≡ front ++ p ∷ rest
      → Stuck topic partition front p b.storage
      → Step b (write (store_batch now) m b).1 (m ∷ []) 0
  unfolding write flush_locked
  write_stops rest m b e h = elim (Bool-cases (leb b.batch_size (length (b.buffer ++ m ∷ [])))) [
    | inl q ↦
        let b' : ProcessorBridge = record b {
          buffer = b.buffer ++ m ∷ [];
          message_count = (b.message_count + 1) % 2 ^ 64;
        } in
        let (s, f, stuck, grows) =
          flush_stops (rest ++ m ∷ []) b'
            (ap (λ l. l ++ m ∷ []) e ∙ append_assoc front (p ∷ rest) (m ∷ [])) h in
        rw q (
          subst (λ r. Step b r.1 (m ∷ []) 0) (sym f)
            (record {
              buffer = refl;
              stuck = stuck;
              retries = refl;
              running = refl;
              grows = omega (arith, grows);
            }))
    | inr q ↦
        rw q
          (record { buffer = refl; stuck = h; retries = refl; running = refl; grows = omega arith })
  ]

  followed_by :
      {b b' b'' : ProcessorBridge} (l l' : List PortaskMessage) {n n' : ℕ} (k : ℕ)
      → k ≤ n + n'
      → Step b b' l n
      → Step b' b'' l' n'
      → Step b b'' (l ++ l') k
  followed_by {b} l l' k h x y = record {
    buffer = y.buffer ∙ ap (λ k. k ++ l') x.buffer ∙ append_assoc b.buffer l l';
    stuck = y.stuck;
    retries = y.retries ∙ x.retries;
    running = y.running ∙ x.running;
    grows = omega (arith, h, x.grows, y.grows);
  }

  run_calls_stop :
      (calls : List (Call PortaskMessage)) (rest : List PortaskMessage) (b : ProcessorBridge)
      → b.buffer ≡ front ++ p ∷ rest
      → Stuck topic partition front p b.storage
      → Step b
          (run_calls (store_batch now) calls b)
          (written calls)
          (tick_count calls * (suc b.max_retries * share topic partition front))
  unfolding run_calls written tick_count
  run_calls_stop [] rest b e h = record {
    buffer = sym (append-nil b.buffer);
    stuck = h;
    retries = refl;
    running = refl;
    grows = omega arith;
  }
  run_calls_stop (writes m ∷ calls) rest b e h =
      let x = write_stops rest m b e h in
      let y =
        run_calls_stop calls (rest ++ m ∷ []) (write (store_batch now) m b).1
          (x.buffer ∙ ap (λ l. l ++ m ∷ []) e ∙ append_assoc front (p ∷ rest) (m ∷ [])) x.stuck in
      let same = ap (λ r. tick_count calls * (suc r * share topic partition front)) x.retries in
      followed_by (m ∷ []) (written calls) _ (omega (arith, same)) x y
  run_calls_stop (ticks ∷ calls) rest b e h =
      let x = tick_stops rest b e h in
      let y =
        run_calls_stop calls rest (tick (store_batch now) b) (x.buffer ∙ append-nil b.buffer ∙ e)
          x.stuck in
      let same = ap (λ r. tick_count calls * (suc r * share topic partition front)) x.retries in
      followed_by [] (written calls) _
        (omega (
          arith,
          same,
          suc-mul (tick_count calls) (suc b.max_retries * share topic partition front),
        ))
        x y

-- A message in the buffer whose topic does not exist, behind messages whose topics do, jams the
-- writer for good: whatever is written after it, in any number of ticks, it stays where it is and all
-- that is written waits behind it; each tick stores the messages before it again, once in each
-- attempt; and `Stop` fails.
pub run_calls_jammed :
    (topic : Text) (partition : ℕ) (front rest : List PortaskMessage) (p : PortaskMessage) (now : ℕ)
    (calls : List (Call PortaskMessage)) (b : ProcessorBridge)
    → b.running ≡ true
    → b.buffer ≡ front ++ p ∷ rest
    → AllExist b.storage front
    → Missing b.storage p.topic
    → let b' = run_calls (store_batch now) calls b in
      (b'.buffer ≡ front ++ p ∷ (rest ++ written calls))
      × Missing b'.storage p.topic
      × (tick_count calls * (suc b.max_retries * share topic partition front)
            + size topic partition b.storage
          ≤ size topic partition b'.storage)
      × ((stop (store_batch now) b').0 ≡ true)
unfolding Stuck stop flush_locked
run_calls_jammed topic partition front rest p now calls b r e h k =
    let x = run_calls_stop topic partition front p now calls rest b e (h, k) in
    let b' = run_calls (store_batch now) calls b in
    let buffer =
      x.buffer ∙ ap (λ l. l ++ written calls) e ∙ append_assoc front (p ∷ rest) (written calls) in
    let (s, f, _, _) =
      flush_stops topic partition front p now (rest ++ written calls)
        (record b' { running = false }) buffer x.stuck in
    (buffer, x.stuck.1, x.grows, rw (x.running ∙ r) (ap (λ o. o.0) f))
