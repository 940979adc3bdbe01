-- ===== src/Writer/Calls.antt =====
-- Calls of the batch writer of pkg/processor/batch_writer.go one after another.
use portask.Prelude.{
  ◌≡◌, refl, ◌∙◌, inl, inr, Bool, true, false, Bool-cases, leb, List, [], ◌∷◌, ◌++◌, length,
}
use portask.Writer.{BatchWriter, after_attempts, flush_batch, flush_locked, write, tick}

pub data Call (M : Type 0) : Type 0 where
  writes : M → Call M
  ticks : Call M

unfoldable pub written : {M : Type 0} → List (Call M) → List M
written [] = []
written (writes m ∷ calls) = m ∷ written calls
written (ticks ∷ calls) = written calls

module _ {M S : Type 0} (store_batch : S → List M → Bool × S) where
  unfoldable pub run_calls : List (Call M) → BatchWriter M S → BatchWriter M S
  run_calls [] w = w
  run_calls (writes m ∷ calls) w = run_calls calls (write store_batch m w).1
  run_calls (ticks ∷ calls) w = run_calls calls (tick store_batch w)

  after_attempts-running :
      (r : Bool × S) (w : BatchWriter M S) → (after_attempts store_batch r w).1.running ≡ w.running
  unfolding after_attempts
  after_attempts-running (true, s) w = refl
  after_attempts-running (false, s) w = refl

  flush_batch-running :
      (batch : List M) (w : BatchWriter M S)
      → (flush_batch store_batch batch w).1.running ≡ w.running
  unfolding flush_batch
  flush_batch-running [] w = refl
  flush_batch-running (m ∷ batch) w = after_attempts-running _ w

  write-running : (m : M) (w : BatchWriter M S) → (write store_batch m w).1.running ≡ w.running
  unfolding write flush_locked
  write-running m w = elim (Bool-cases (leb w.batch_size (length (w.buffer ++ m ∷ [])))) [
    | inl p ↦ rw p (flush_batch-running _ _)
    | inr p ↦ rw p refl
  ]

  pub run_calls-running :
      (calls : List (Call M)) (w : BatchWriter M S) → (run_calls calls w).running ≡ w.running
  unfolding run_calls tick flush_locked
  run_calls-running [] w = refl
  run_calls-running (writes m ∷ calls) w =
      run_calls-running calls (write store_batch m w).1 ∙ write-running m w
  run_calls-running (ticks ∷ calls) w = run_calls-running calls _ ∙ flush_batch-running w.buffer w
