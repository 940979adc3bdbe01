-- ===== src/Queue/Stuck.antt =====
-- `Enqueue` and `Dequeue` (pkg/queue/lockfree.go) on a queue that DropOldest has wedged: a message is
-- never accepted again, and the queue stays wedged.
use portask.Prelude.{ℕ, ◌^◌, ◌≡◌, ◌∙◌, Bool, false, Option, some, List, [], ◌∷◌, arith, length}
use portask.Queue.{
  LockFreeQueue, drop_oldest, skip_oldest, enqueue, dequeue, try_force_enqueue_drop_oldest,
}
use portask.Queue.Repr.{Holds}
use portask.Queue.Nodes.{taken_tail}
use portask.Queue.Wedge.{
  IsWedged, skip_round, skip_oldest-IsWedged, enqueue_loop-IsWedged, dequeue_loop-IsWedged,
}

try_force_lem :
    {A : Type 0} (q : LockFreeQueue A) (x : A) {out : Option A × Bool} {q' : LockFreeQueue A}
    → q.drop_policy ≡ drop_oldest
    → dequeue q ≡ some (out, q')
    → try_force_enqueue_drop_oldest q x ≡ enqueue q' x
unfolding try_force_enqueue_drop_oldest
try_force_lem q x p e = ground arith

module _ {A : Type 0} {k : ℕ} where
  pub enqueue-IsWedged :
      (q : LockFreeQueue A) (x : A)
      → IsWedged q k
      → (q' : LockFreeQueue A) × (enqueue q x ≡ some (false, q')) × IsWedged q' k
  unfolding enqueue
  enqueue-IsWedged q x w = enqueue_loop-IsWedged 1000 q x w

  pub dequeue-IsWedged :
      (q : LockFreeQueue A)
      → IsWedged q k
      → (out : Option A × Bool) × (q' : LockFreeQueue A) × (dequeue q ≡ some (out, q'))
        × IsWedged q' k
  unfolding dequeue
  dequeue-IsWedged q w = dequeue_loop-IsWedged 1000 q w

  -- `tryForceEnqueueDropOldest` makes no room either.
  pub try_force-IsWedged :
      (q : LockFreeQueue A) (x : A)
      → IsWedged q k
      → (q' : LockFreeQueue A) × (try_force_enqueue_drop_oldest q x ≡ some (false, q'))
        × IsWedged q' k
  try_force-IsWedged q x w =
      let (out, q', e, w') = dequeue-IsWedged q w in
      let (q'', f, w'') = enqueue-IsWedged q' x w' in (q'', try_force_lem q x w.policy e ∙ f, w'')

  -- The first message that a full queue refuses wedges it.
  pub full-IsWedged :
      {q : LockFreeQueue A} {xs : List A}
      → Holds q k xs
      → length xs ≡ 2 ^ k
      → q.drop_policy ≡ drop_oldest
      → (x : A) → (q' : LockFreeQueue A) × (enqueue q x ≡ some (false, q')) × IsWedged q' k
  unfolding enqueue
  full-IsWedged {q} {xs = []} h full pol x = absurd (omega (arith, h.at_least_two))
  full-IsWedged {q} {xs = y ∷ ys} h full pol x =
      let n = taken_tail h full in
      let (q', e, w') = enqueue_loop-IsWedged 999 (skip_oldest q q.enqueue_pos) x (
        skip_oldest-IsWedged q h.shaped h.at_least_two pol h.early _ n
          (omega (arith, h.counted, full))) in
      (
        q',
        skip_round q _ 999 x n (omega (arith, h.counted, h.at_least_two, full))
              (omega (arith, h.early)) pol
            ∙ e,
        w',
      )
