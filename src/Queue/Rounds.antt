-- ===== src/Queue/Rounds.antt =====
-- One round of the loops of `Enqueue` and `Dequeue` (pkg/queue/lockfree.go), by the node it reads.
use portask.Prelude.{suc, ◌≡◌, true, false, none, some, arith}
use portask.Queue.{
  LockFreeQueue, QueueNode, drop_oldest, drop_newest, block, Gap, level, behind, ahead, gap, add64,
  publish, release, count_drop, skip_oldest, enqueue_loop, dequeue_loop, node_at,
}
use Prim.Native.Nat.{ℕ}

-- One round of each loop, by the node that it reads.
module _ {A : Type 0} (q : LockFreeQueue A) (node : QueueNode A) (r : ℕ) where
  pub enqueue_round :
      (g : Gap) (x : A)
      → node_at q q.enqueue_pos ≡ some node
      → gap node.sequence q.enqueue_pos ≡ g
      → enqueue_loop (suc r) q x ≡ elim g [
        | level ↦ some (true, publish q q.enqueue_pos x)
        | behind ↦ elim q.drop_policy [
          | drop_newest ↦ some (false, count_drop q)
          | drop_oldest ↦ enqueue_loop r (skip_oldest q q.enqueue_pos) x
          | block ↦ enqueue_loop r q x
        ]
        | ahead ↦ enqueue_loop r q x
      ]
  unfolding enqueue_loop
  enqueue_round g x e f = ground (arith, e, f)

  pub dequeue_round :
      (g : Gap)
      → node_at q q.dequeue_pos ≡ some node
      → gap node.sequence (add64 q.dequeue_pos 1) ≡ g
      → dequeue_loop (suc r) q ≡ elim g [
        | level ↦ some ((node.item, true), release q q.dequeue_pos)
        | behind ↦ some ((none, false), q)
        | ahead ↦ dequeue_loop r q
      ]
  unfolding dequeue_loop
  dequeue_round g e f = ground (arith, e, f)
