-- ===== src/Queue/Wedge.antt =====
-- `DropOldest` (pkg/queue/lockfree.go): the compare-and-swap of `Enqueue` moves the dequeue position
-- past the oldest message and leaves the sequence number of its node, which no call renews.
use portask.Prelude.{
  ℕ, zero, suc, ◌+◌, ◌-◌, ◌%◌, ◌^◌, ◌≤◌, ◌<◌, ◌≡◌, ◌≢◌, refl, ap, sym, ◌∙◌, Bool, true, false,
  Option, none, some, List, [], ◌∷◌, arith, length, get_elem?,
}
use native.Mathlib.Decide.{dec_lt}
use portask.Queue.{
  LockFreeQueue, QueueNode, drop_oldest, Gap, level, behind, ahead, gap, add64, release, count_drop,
  skip_oldest, enqueue_loop, enqueue, dequeue_loop, dequeue, node_at,
}
use portask.Queue.Repr.{IsShaped, Holds, node_at-IsShaped, mod_ne, gap-behind}
use portask.Queue.Nodes.{node_at_lem, store-IsShaped, stored_other, taken_tail, index-lt}
use portask.Queue.Rounds.{enqueue_round, dequeue_round}
use portask.Queue.Refine.{calls, calls-put, calls-get}
use portask.Queue.Spec.{Call, put, get, Reply, accepted, taken}

-- The node of the enqueue position still has the number of the lap before.
pub record IsWedged {A : Type 0} (q : LockFreeQueue A) (k : ℕ) : Type 0 where
  pub shaped : IsShaped q k
  pub at_least_two : 2 ≤ 2 ^ k
  pub policy : q.drop_policy ≡ drop_oldest
  pub early : q.enqueue_pos < 2 ^ 62
  pub node : QueueNode A
  pub node_eq : node_at q q.enqueue_pos ≡ some node
  pub old : node.sequence + 2 ^ k ≡ q.enqueue_pos + 1
  pub head_low : q.enqueue_pos < q.dequeue_pos + 2 ^ k
  pub head_high : q.dequeue_pos ≤ q.enqueue_pos

get_elem?-exists :
    {A : Type 0} (l : List A) (i : ℕ) → i < length l → (a : A) × (get_elem? l i ≡ some a)
get_elem?-exists [] i h = absurd (omega arith)
get_elem?-exists (n ∷ l) zero h = (n, refl)
get_elem?-exists (n ∷ l) (suc i) h = get_elem?-exists l i (omega arith)

-- A round of `Enqueue` that sees an old node under `DropOldest`.
pub skip_round :
    {A : Type 0} (q : LockFreeQueue A) (node : QueueNode A) (r : ℕ) (x : A)
    → node_at q q.enqueue_pos ≡ some node
    → node.sequence < q.enqueue_pos
    → q.enqueue_pos < 2 ^ 63
    → q.drop_policy ≡ drop_oldest
    → enqueue_loop (suc r) q x ≡ enqueue_loop r (skip_oldest q q.enqueue_pos) x
skip_round q node r x e old early pol =
    enqueue_round q node r behind x e (gap-behind node.sequence q.enqueue_pos old early) ∙ simp pol

-- What the loop of `Dequeue` leaves of a wedged queue.
abbrev pub DequeueLeaves : {A : Type 0} → ℕ → ℕ → LockFreeQueue A → Type 0
DequeueLeaves {A} k r q =
    (out : Option A × Bool) × (q' : LockFreeQueue A) × (dequeue_loop r q ≡ some (out, q'))
    × IsWedged q' k

module _ {A : Type 0} {k : ℕ} where
  pub skip_oldest-IsWedged :
      (q : LockFreeQueue A)
      → IsShaped q k
      → 2 ≤ 2 ^ k
      → q.drop_policy ≡ drop_oldest
      → q.enqueue_pos < 2 ^ 62
      → (n : QueueNode A) → node_at q q.enqueue_pos ≡ some n
      → n.sequence + 2 ^ k ≡ q.enqueue_pos + 1
      → IsWedged (skip_oldest q q.enqueue_pos) k
  unfolding skip_oldest
  skip_oldest-IsWedged q s two pol e n ne old = record {
    shaped = record { cap_eq = s.cap_eq; mask_eq = s.mask_eq; nodes = s.nodes; small = s.small };
    at_least_two = two;
    policy = pol;
    early = e;
    node = n;
    node_eq = ne;
    old = old;
    head_low = omega (arith, s.cap_eq, s.small);
    head_high = omega (arith, s.cap_eq, s.small);
  }

  pub count_drop-IsWedged : {q : LockFreeQueue A} → IsWedged q k → IsWedged (count_drop q) k
  unfolding count_drop
  count_drop-IsWedged w = record {
    shaped = record {
      cap_eq = w.shaped.cap_eq;
      mask_eq = w.shaped.mask_eq;
      nodes = w.shaped.nodes;
      small = w.shaped.small;
    };
    at_least_two = w.at_least_two;
    policy = w.policy;
    early = w.early;
    node = w.node;
    node_eq = w.node_eq;
    old = w.old;
    head_low = w.head_low;
    head_high = w.head_high;
  }

  -- A message taken from another node leaves the enqueue position's node as it is.
  release-IsWedged :
      {q : LockFreeQueue A}
      → IsWedged q k
      → q.dequeue_pos < q.enqueue_pos
      → IsWedged (release q q.dequeue_pos) k
  unfolding release
  release-IsWedged {q} w l = record {
    shaped = record {
      cap_eq = w.shaped.cap_eq;
      mask_eq = w.shaped.mask_eq;
      nodes = store-IsShaped w.shaped q.dequeue_pos _;
      small = w.shaped.small;
    };
    at_least_two = w.at_least_two;
    policy = w.policy;
    early = w.early;
    node = w.node;
    node_eq =
        ap (get_elem? (release q q.dequeue_pos).buffer) (node_at-IsShaped w.shaped q.enqueue_pos)
        ∙ stored_other w.shaped q.dequeue_pos _ q.enqueue_pos apart
        ∙ sym (node_at_lem w.shaped q.enqueue_pos)
        ∙ w.node_eq;
    old = w.old;
    head_low = omega (arith, w.head_low, w.early);
    head_high = omega (arith, w.early);
  }
    where
      apart : q.dequeue_pos % 2 ^ k ≢ q.enqueue_pos % 2 ^ k
      apart e =
          mod_ne q.dequeue_pos (q.enqueue_pos - q.dequeue_pos) (2 ^ k) (omega arith)
            (omega (arith, w.head_low)) (ap (λ (t : ℕ). t % 2 ^ k) (omega arith) ∙ sym e)

  -- No retry of `Enqueue` finds a free node.
  pub enqueue_loop-IsWedged :
      (r : ℕ) (q : LockFreeQueue A) (x : A)
      → IsWedged q k
      → (q' : LockFreeQueue A) × (enqueue_loop r q x ≡ some (false, q')) × IsWedged q' k
  unfolding enqueue_loop
  enqueue_loop-IsWedged zero q x w = (count_drop q, refl, count_drop-IsWedged w)
  enqueue_loop-IsWedged (suc r) q x w =
      let (q', e, w') =
        enqueue_loop-IsWedged r (skip_oldest q q.enqueue_pos) x (
          skip_oldest-IsWedged q w.shaped w.at_least_two w.policy w.early w.node w.node_eq w.old) in
      (q', skip_round q w.node r x w.node_eq older (omega (arith, w.early)) w.policy ∙ e, w')
    where
      older : w.node.sequence < q.enqueue_pos
      older = omega (arith, w.old, w.at_least_two)

  dequeue_round-IsWedged :
      (r : ℕ) (q : LockFreeQueue A) (n : QueueNode A) (g : Gap)
      → IsWedged q k
      → q.dequeue_pos < q.enqueue_pos
      → DequeueLeaves k r q
      → node_at q q.dequeue_pos ≡ some n
      → gap n.sequence (add64 q.dequeue_pos 1) ≡ g
      → DequeueLeaves k (suc r) q
  dequeue_round-IsWedged r q n level w l ih e f =
      ((n.item, true), release q q.dequeue_pos, dequeue_round q n r level e f, release-IsWedged w l)
  dequeue_round-IsWedged r q n behind w l ih e f =
      ((none, false), q, dequeue_round q n r behind e f, w)
  dequeue_round-IsWedged r q n ahead w l ih e f =
      (ih.0, ih.1, dequeue_round q n r ahead e f ∙ ih.2, ih.3)

  pub dequeue_loop-IsWedged : (r : ℕ) (q : LockFreeQueue A) → IsWedged q k → DequeueLeaves k r q
  unfolding dequeue_loop
  dequeue_loop-IsWedged zero q w = ((none, false), q, refl, w)
  dequeue_loop-IsWedged (suc r) q w = elim (dec_lt q.dequeue_pos q.enqueue_pos) [
    | yes l ↦
        let (n, e) =
          get_elem?-exists q.buffer (q.dequeue_pos % 2 ^ k) (index-lt w.shaped q.dequeue_pos) in
        dequeue_round-IsWedged r q n (gap n.sequence (add64 q.dequeue_pos 1)) w l
          (dequeue_loop-IsWedged r q w) (node_at_lem w.shaped q.dequeue_pos ∙ e) refl
    | no n ↦ (
      (none, false),
      q,
      dequeue_round q w.node r behind (ap (node_at q) (omega (arith, w.head_high)) ∙ w.node_eq) (
          gap-behind w.node.sequence (add64 q.dequeue_pos 1)
            (omega (arith, w.old, w.at_least_two, w.head_high, w.early))
            (omega (arith, w.head_high, w.early))),
      w,
    )
  ]

-- No `Enqueue` among the replies was accepted.
abbrev pub Refused : {A : Type 0} → List (Reply A) → Type 0
Refused [] = Unit
Refused (accepted b ∷ rs) = (b ≡ false) × Refused rs
Refused (taken o b ∷ rs) = Refused rs

module _ {A : Type 0} {k : ℕ} where
  calls-IsWedged :
      (cs : List (Call A)) (q : LockFreeQueue A)
      → IsWedged q k
      → (rs : List (Reply A)) × (q' : LockFreeQueue A) × (calls q cs ≡ some (rs, q')) × Refused rs
  unfolding calls enqueue dequeue
  calls-IsWedged [] q w = ([], q, refl, tt)
  calls-IsWedged (put x ∷ cs) q w =
      let (q', e, w') = enqueue_loop-IsWedged 1000 q x w in
      let (rs, q'', f, g) = calls-IsWedged cs q' w' in
      (accepted false ∷ rs, q'', calls-put q x cs e f, (refl, g))
  calls-IsWedged (get ∷ cs) q w =
      let (out, q', e, w') = dequeue_loop-IsWedged 1000 q w in
      let (rs, q'', f, g) = calls-IsWedged cs q' w' in
      (taken out.0 out.1 ∷ rs, q'', calls-get q cs e f, g)

  -- A full queue of at least two and at most 2^62 places whose policy is DropOldest refuses the next
  -- message, and from then on every message, whatever calls of `Enqueue` and `Dequeue` follow: it
  -- never makes room again. Its positions are below 2^62 when it is full.
  pub drop_oldest_wedges :
      {q : LockFreeQueue A} {xs : List A}
      → Holds q k xs
      → length xs ≡ 2 ^ k
      → q.drop_policy ≡ drop_oldest
      → (x : A) (cs : List (Call A))
      → (rs : List (Reply A)) × (q' : LockFreeQueue A) × (calls q (put x ∷ cs)
          ≡ some (accepted false ∷ rs, q'))
        × Refused rs
  unfolding enqueue
  drop_oldest_wedges {q} {xs = []} h full pol x cs = absurd (omega (arith, h.at_least_two))
  drop_oldest_wedges {q} {xs = y ∷ ys} h full pol x cs =
      let n = taken_tail h full in
      let (q', e, w') = enqueue_loop-IsWedged 999 (skip_oldest q q.enqueue_pos) x (
        skip_oldest-IsWedged q h.shaped h.at_least_two pol h.early _ n
          (omega (arith, h.counted, full))) in
      let (rs, q'', f, g) = calls-IsWedged cs q' w' in
      let start : enqueue_loop 1000 q x ≡ some (false, q') =
        skip_round q _ 999 x n (omega (arith, h.counted, h.at_least_two, full))
          (omega (arith, h.early)) pol
        ∙ e in
      (rs, q'', calls-put q x cs start f, g)
