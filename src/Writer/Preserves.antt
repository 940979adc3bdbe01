-- ===== src/Writer/Preserves.antt =====
-- What any storage, and the messages in the buffer, keep through the batch writer of
-- pkg/processor/batch_writer.go.
use portask.Prelude.{
  ℕ, zero, suc, Bool, true, false, inl, inr, Bool-cases, leb, List, [], ◌∷◌, ◌++◌, length,
}
use portask.Writer.{BatchWriter, attempts, after_attempts, flush_batch, flush_locked, write, tick}

module _ {M S : Type 0} (Fits : M → Type 0) (Valid : S → Type 0) where
  unfoldable pub AllFit : List M → Type 0
  AllFit [] = Unit {0}
  AllFit (m ∷ messages) = Fits m × AllFit messages

  AllFit-append : (l : List M) (m : M) → AllFit l → Fits m → AllFit (l ++ m ∷ [])
  unfolding AllFit
  AllFit-append [] m h k = (k, tt)
  AllFit-append (x ∷ l) m (h, hs) k = (h, AllFit-append l m hs k)

  unfoldable pub Sound : BatchWriter M S → Type 0
  Sound w = Valid w.storage × AllFit w.buffer

  module _ (store_batch : S → List M → Bool × S)
      (keeps : (s : S) (batch : List M)
        → Valid s
        → AllFit batch
        → Valid (store_batch s batch).1) where
    attempts-Valid :
        (retries : ℕ) (s : S) (batch : List M)
        → Valid s
        → AllFit batch
        → Valid (attempts store_batch retries s batch).1
    unfolding attempts
    attempts-Valid zero s batch h k = keeps s batch h k
    attempts-Valid (suc retries) s batch h k = elim (Bool-cases (store_batch s batch).0) [
      | inl p ↦ rw p (attempts-Valid retries (store_batch s batch).1 batch (keeps s batch h k) k)
      | inr p ↦ rw p (keeps s batch h k)
    ]

    after_attempts-Sound :
        (r : Bool × S) (w : BatchWriter M S)
        → Valid r.1
        → AllFit w.buffer
        → Sound (after_attempts store_batch r w).1
    unfolding after_attempts Sound AllFit
    after_attempts-Sound (true, s) w h k = (h, k)
    after_attempts-Sound (false, s) w h k = (h, tt)

    flush_batch-Sound :
        (batch : List M) (w : BatchWriter M S)
        → Sound w
        → AllFit batch
        → Sound (flush_batch store_batch batch w).1
    unfolding flush_batch Sound
    flush_batch-Sound [] w h k = h
    flush_batch-Sound (m ∷ batch) w h k =
        after_attempts-Sound _ w (attempts-Valid w.max_retries w.storage (m ∷ batch) h.0 k) h.1

    pub tick-Sound : (w : BatchWriter M S) → Sound w → Sound (tick store_batch w)
    unfolding tick flush_locked Sound
    tick-Sound w h = flush_batch-Sound w.buffer w h h.1

    pub write-Sound :
        (m : M) (w : BatchWriter M S) → Sound w → Fits m → Sound (write store_batch m w).1
    unfolding write flush_locked Sound
    write-Sound m w h k =
        let fit = AllFit-append w.buffer m h.1 k in
        elim (Bool-cases (leb w.batch_size (length (w.buffer ++ m ∷ [])))) [
          | inl p ↦ rw p (flush_batch-Sound _ _ (h.0, fit) fit)
          | inr p ↦ rw p (h.0, fit)
        ]
