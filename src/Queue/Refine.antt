-- ===== src/Queue/Refine.antt =====
-- Calls of a queue (pkg/queue/lockfree.go) one after another, against the bounded first-in
-- first-out list of Queue/Spec.antt.
use portask.Prelude.{
  ℕ, ◌+◌, ◌^◌, ◌<◌, ◌≡◌, ◌≢◌, refl, sym, subst, ◌∙◌, Bool, Option, none, some, List, [], ◌∷◌, arith,
  length, lt→ltb, ltb-false, ◌≤◌,
}
use native.Mathlib.Decide.{dec_lt}
use portask.Queue.{LockFreeQueue, drop_oldest, publish, release, count_drop, enqueue, dequeue}
use portask.Queue.Repr.{Holds}
use portask.Queue.Nodes.{publish-Holds, release-Holds}
use portask.Queue.Spec.{Call, put, get, Reply, accepted, taken, answer, run}
use portask.Queue.Fifo.{enqueue-room, enqueue-full, dequeue-item, dequeue-empty, count_drop-Holds}

-- A call of the queue, and a list of calls one after another.
module _ {A : Type 0} where
  unfoldable pub call : LockFreeQueue A → Call A → Option (Reply A × LockFreeQueue A)
  call q (put x) = elim (enqueue q x) [ none ↦ none | some (b, q') ↦ some (accepted b, q') ]
  call q get = elim (dequeue q) [ none ↦ none | some ((o, b), q') ↦ some (taken o b, q') ]

  unfoldable pub calls : LockFreeQueue A → List (Call A) → Option (List (Reply A) × LockFreeQueue A)
  calls q [] = some ([], q)
  calls q (c ∷ cs) = elim (call q c) [
    | none ↦ none
    | some (r, q') ↦ elim (calls q' cs) [ none ↦ none | some (rs, q'') ↦ some (r ∷ rs, q'') ]
  ]

  pub calls-put :
      (q : LockFreeQueue A) (x : A) (cs : List (Call A)) {q' q'' : LockFreeQueue A} {b : Bool}
      {rs : List (Reply A)}
      → enqueue q x ≡ some (b, q')
      → calls q' cs ≡ some (rs, q'')
      → calls q (put x ∷ cs) ≡ some (accepted b ∷ rs, q'')
  unfolding calls call
  calls-put q x cs e f = ground (arith, e, f)

  pub calls-get :
      (q : LockFreeQueue A) (cs : List (Call A)) {q' q'' : LockFreeQueue A} {o : Option A}
      {b : Bool} {rs : List (Reply A)}
      → dequeue q ≡ some ((o, b), q')
      → calls q' cs ≡ some (rs, q'')
      → calls q (get ∷ cs) ≡ some (taken o b ∷ rs, q'')
  unfolding calls call
  calls-get q cs e f = ground (arith, e, f)

  -- What one call leaves, beside the queue.
  pub record Refines (q : LockFreeQueue A) (k : ℕ) (xs : List A) (c : Call A) : Type 0 where
    pub next : LockFreeQueue A
    pub replies : call q c ≡ some ((answer (2 ^ k) xs c).0, next)
    pub holds : Holds next k (answer (2 ^ k) xs c).1
    pub policy : next.drop_policy ≡ q.drop_policy
    pub room : next.enqueue_pos ≤ q.enqueue_pos + 1

  pub call-Refines :
      (q : LockFreeQueue A) (k : ℕ) (xs : List A) (c : Call A)
      → Holds q k xs
      → q.drop_policy ≢ drop_oldest
      → q.enqueue_pos + 1 < 2 ^ 62
      → Refines q k xs c
  unfolding call publish release count_drop
  call-Refines q k xs (put x) h pol e = elim (dec_lt (length xs) (2 ^ k)) [
    | yes l ↦ record {
      next = publish q q.enqueue_pos x;
      replies = rw (enqueue-room h l x, call, lt→ltb (length xs) (2 ^ k) l);
      holds = rw (lt→ltb (length xs) (2 ^ k) l) (publish-Holds h x l e);
      policy = refl;
      room = omega arith;
    }
    | no l ↦ record {
      next = count_drop q;
      replies = rw (
        enqueue-full h (omega (arith, h.fits)) pol x,
        call,
        ltb-false (length xs) (2 ^ k) (omega arith),
      );
      holds = rw (ltb-false (length xs) (2 ^ k) (omega arith)) (count_drop-Holds h);
      policy = refl;
      room = omega arith;
    }
  ]
  call-Refines q k [] get h pol e = record {
    next = q;
    replies = rw (dequeue-empty h, call);
    holds = h;
    policy = refl;
    room = omega arith;
  }
  call-Refines q k (x ∷ xs) get h pol e = record {
    next = release q q.dequeue_pos;
    replies = rw (dequeue-item h, call);
    holds = release-Holds h;
    policy = refl;
    room = omega arith;
  }

  calls-Refines :
      (cs : List (Call A)) (q : LockFreeQueue A) (k : ℕ) (xs : List A)
      → Holds q k xs
      → q.drop_policy ≢ drop_oldest
      → q.enqueue_pos + length cs < 2 ^ 62
      → (q' : LockFreeQueue A) × (calls q cs ≡ some ((run (2 ^ k) xs cs).0, q'))
        × Holds q' k (run (2 ^ k) xs cs).1
  unfolding calls run
  calls-Refines [] q k xs h pol e = (q, refl, h)
  calls-Refines (c ∷ cs) q k xs h pol e =
      let s = call-Refines q k xs c h pol (omega arith) in
      let (q', p, h') =
        calls-Refines cs s.next k (answer (2 ^ k) xs c).1 s.holds (λ t. pol (sym s.policy ∙ t))
          (omega (arith, s.room)) in
      (q', rw (s.replies, calls, p), h')

  -- A queue of at least two and at most 2^62 places that holds `xs` answers any calls as the bounded
  -- list of its capacity does, and ends holding what that list ends with, if its policy is not
  -- DropOldest and its enqueue position and the number of calls are together below 2^62.
  pub calls_refine :
      (cs : List (Call A)) {q : LockFreeQueue A} {k : ℕ} {xs : List A}
      → Holds q k xs
      → q.drop_policy ≢ drop_oldest
      → q.enqueue_pos + length cs < 2 ^ 62
      → (q' : LockFreeQueue A) × (calls q cs ≡ some ((run q.capacity xs cs).0, q'))
        × Holds q' k (run q.capacity xs cs).1
  calls_refine cs {q} {k} {xs} h pol e =
      subst
        (λ (c : ℕ).
          (q' : LockFreeQueue A) × (calls q cs ≡ some ((run c xs cs).0, q'))
          × Holds q' k (run c xs cs).1)
        (sym h.shaped.cap_eq) (calls-Refines cs q k xs h pol e)
