-- ===== src/Queue/Fifo.antt =====
-- `Enqueue` and `Dequeue` (pkg/queue/lockfree.go) on a queue that holds a list of messages: they
-- act as the bounded first-in first-out list of Queue/Spec.antt.
use portask.Prelude.{
  ℕ, zero, suc, ◌+◌, ◌^◌, ◌<◌, ◌≡◌, ◌≢◌, refl, ap, ◌∙◌, ◌⊎◌, inl, inr, true, false, none, some,
  List, [], ◌∷◌, arith, length,
}
use portask.Queue.{
  LockFreeQueue, DropPolicy, drop_oldest, drop_newest, block, level, behind, gap, add64, publish,
  release, count_drop, enqueue_loop, enqueue, dequeue, node_at,
}
use portask.Queue.Repr.{Holds, gap-level, gap-behind}
use portask.Queue.Nodes.{free_tail, taken_head, taken_tail}
use portask.Queue.Rounds.{enqueue_round, dequeue_round}

pub policy_cases : (p : DropPolicy) → p ≢ drop_oldest → (p ≡ drop_newest) ⊎ (p ≡ block)
policy_cases drop_oldest h = absurd (h refl)
policy_cases drop_newest h = inl refl
policy_cases block h = inr refl

module _ {A : Type 0} {q : LockFreeQueue A} {k : ℕ} where
  pub enqueue-room :
      {xs : List A}
      → Holds q k xs
      → length xs < 2 ^ k
      → (x : A) → enqueue q x ≡ some (true, publish q q.enqueue_pos x)
  unfolding enqueue
  enqueue-room h room x =
      enqueue_round q _ 999 level x (free_tail h room)
        (gap-level q.enqueue_pos (omega (arith, h.early)))

  -- Every retry of a full queue sees the same node.
  enqueue_loop-full :
      {y : A} {ys : List A}
      → Holds q k (y ∷ ys)
      → suc (length ys) ≡ 2 ^ k
      → (q.drop_policy ≡ drop_newest) ⊎ (q.drop_policy ≡ block)
      → (r : ℕ) (x : A) → enqueue_loop r q x ≡ some (false, count_drop q)
  unfolding enqueue_loop
  enqueue_loop-full h full pol zero x = refl
  enqueue_loop-full {y} h full pol (suc r) x =
      enqueue_round q _ r behind x (taken_tail h full) (
        gap-behind (q.dequeue_pos + 1) q.enqueue_pos (omega (arith, h.counted, h.at_least_two))
          (omega (arith, h.early)))
      ∙ elim pol [ inl e ↦ simp e | inr e ↦ simp e (enqueue_loop-full h full pol r x) ]

  pub enqueue-full :
      {xs : List A}
      → Holds q k xs
      → length xs ≡ 2 ^ k
      → q.drop_policy ≢ drop_oldest
      → (x : A) → enqueue q x ≡ some (false, count_drop q)
  unfolding enqueue
  enqueue-full {xs = []} h full pol x = absurd (omega (arith, h.at_least_two))
  enqueue-full {xs = y ∷ ys} h full pol x =
      enqueue_loop-full h full (policy_cases q.drop_policy pol) 1000 x

  pub dequeue-item :
      {x : A} {xs : List A}
      → Holds q k (x ∷ xs)
      → dequeue q ≡ some ((some x, true), release q q.dequeue_pos)
  unfolding dequeue
  dequeue-item {x} h =
      dequeue_round q (record { sequence = q.dequeue_pos + 1; item = some x }) 999 level
        (taken_head h)
        (ap (gap (q.dequeue_pos + 1)) (omega (arith, h.counted, h.early))
          ∙ gap-level (q.dequeue_pos + 1) (omega (arith, h.counted, h.early)))

  pub dequeue-empty : Holds q k [] → dequeue q ≡ some ((none, false), q)
  unfolding dequeue
  dequeue-empty h =
      dequeue_round q (record { sequence = q.enqueue_pos; item = none }) 999 behind
        (ap (node_at q) (omega (arith, h.counted)) ∙ free_tail h (omega (arith, h.at_least_two)))
        (gap-behind q.enqueue_pos (add64 q.dequeue_pos 1) (omega (arith, h.counted, h.early))
          (omega (arith, h.counted, h.early)))

pub count_drop-Holds :
    {A : Type 0} {q : LockFreeQueue A} {k : ℕ} {xs : List A}
    → Holds q k xs
    → Holds (count_drop q) k xs
unfolding count_drop
count_drop-Holds h = record {
  shaped = record {
    cap_eq = h.shaped.cap_eq;
    mask_eq = h.shaped.mask_eq;
    nodes = h.shaped.nodes;
    small = h.shaped.small;
  };
  at_least_two = h.at_least_two;
  counted = h.counted;
  fits = h.fits;
  early = h.early;
  stored = h.stored;
  vacant = h.vacant;
}
