-- ===== src/Queue/Single.antt =====
-- A queue of one node (pkg/queue/lockfree.go): `NewLockFreeQueue` keeps the capacity 1, at which a
-- node just filled has the number that `Enqueue` takes for a free one.
use portask.Prelude.{
  ℕ, zero, suc, ◌+◌, ◌^◌, ◌<◌, ◌≡◌, refl, ap, ap₂, ◌∙◌, true, false, none, some, [], ◌∷◌, arith,
  get_elem?, set,
}
use portask.Prelude.Bits.{bit_and, bit_and-zero}
use portask.Queue.{
  LockFreeQueue, QueueNode, level, ahead, gap, add64, publish, enqueue, dequeue_loop, dequeue,
  node_at,
}
use portask.Queue.Repr.{gap-level, gap-ahead}
use portask.Queue.Rounds.{enqueue_round, dequeue_round}

-- A queue of capacity 1 that holds the message `x`.
pub record HoldsOne {A : Type 0} (q : LockFreeQueue A) (x : A) : Type 0 where
  pub mask_eq : q.mask ≡ 0
  pub buffer_eq : q.buffer ≡ record { sequence = q.enqueue_pos; item = some x } ∷ []
  pub counted : q.enqueue_pos ≡ q.dequeue_pos + 1
  pub early : q.enqueue_pos < 2 ^ 62

module _ {A : Type 0} where
  only_node :
      (q : LockFreeQueue A) (n : QueueNode A) (pos : ℕ)
      → q.mask ≡ 0
      → q.buffer ≡ n ∷ []
      → node_at q pos ≡ some n
  only_node q n pos m b =
      ap (λ i. get_elem? q.buffer i) (ap (bit_and pos) m ∙ bit_and-zero pos)
      ∙ ap (λ l. get_elem? l 0) b

  ahead_loop :
      (r : ℕ) (q : LockFreeQueue A) (n : QueueNode A)
      → node_at q q.dequeue_pos ≡ some n
      → gap n.sequence (add64 q.dequeue_pos 1) ≡ ahead
      → dequeue_loop r q ≡ some ((none, false), q)
  unfolding dequeue_loop
  ahead_loop zero q n e g = refl
  ahead_loop (suc r) q n e g = dequeue_round q n r ahead e g ∙ ahead_loop r q n e g

  -- A queue of capacity 1 that holds a message accepts a second one, and then gives none: both
  -- accepted messages are lost to `Dequeue`.
  pub single_overwrites :
      {q : LockFreeQueue A} {x : A}
      → HoldsOne q x
      → (y : A)
      → (q' : LockFreeQueue A) × (enqueue q y ≡ some (true, q'))
        × (dequeue q' ≡ some ((none, false), q'))
  unfolding enqueue dequeue
  single_overwrites {q} {x} h y =
      let q' = publish q q.enqueue_pos y in
      (
        q',
        enqueue_round q _ 999 level y (only_node q _ q.enqueue_pos h.mask_eq h.buffer_eq)
            (gap-level q.enqueue_pos (omega (arith, h.early))),
        ahead_loop 1000 q' (record { sequence = add64 q.enqueue_pos 1; item = some y })
            (unfold publish in refilled)
            (unfold publish in
              gap-ahead (add64 q.enqueue_pos 1) (add64 q.dequeue_pos 1)
                (omega (arith, h.counted, h.early)) (omega (arith, h.early))),
      )
    where
      index : (pos : ℕ) → bit_and pos q.mask ≡ 0
      index pos = ap (bit_and pos) h.mask_eq ∙ bit_and-zero pos

      node : QueueNode A
      node = record { sequence = add64 q.enqueue_pos 1; item = some y }

      refilled :
          get_elem?
            (set q.buffer (bit_and q.enqueue_pos q.mask) node)
            (bit_and q.dequeue_pos q.mask)
          ≡ some node
      refilled =
          ap₂ (λ (i j : ℕ). get_elem? (set q.buffer i node) j) (index q.enqueue_pos)
            (index q.dequeue_pos)
          ∙ ap (λ l. get_elem? (set l 0 node) 0) h.buffer_eq
