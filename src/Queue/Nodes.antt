-- ===== src/Queue/Nodes.antt =====
-- The writes of `Enqueue` and `Dequeue` (pkg/queue/lockfree.go) on a queue that holds a list of
-- messages, and the nodes that the two read.
use native.Mathlib.Nat.{add-mod_right, one-le-pow}
use native.Mathlib.Decide.{dec_lt}
use portask.Prelude.{
  ℕ, suc, ◌+◌, ◌-◌, ◌%◌, ◌^◌, ◌<◌, ◌≡◌, ◌≢◌, refl, ap, ap₂, sym, ◌∙◌, inl, inr, none, some, List,
  [], ◌∷◌, ◌++◌, arith, length, get_elem?, set, length-set, length-append, get_elem?-set_self,
  get_elem?-set_ne,
}
use portask.Prelude.Bits.{bit_and}
use portask.Queue.{LockFreeQueue, QueueNode, add64, publish, release, node_at}
use portask.Queue.Repr.{IsShaped, Holds, node_at-IsShaped, mod_ne, get_elem?-snoc, get_elem?-lt}

module _ {A : Type 0} {q : LockFreeQueue A} {k : ℕ} where
  -- The index of a position lies in the buffer.
  pub index-lt : IsShaped q k → (pos : ℕ) → pos % 2 ^ k < length q.buffer
  index-lt s pos = omega (arith, s.nodes, one-le-pow k 2)

  store_lem :
      IsShaped q k
      → (pos : ℕ) (node : QueueNode A)
      → set q.buffer (bit_and pos q.mask) node ≡ set q.buffer (pos % 2 ^ k) node
  store_lem s pos node = ap (λ i. set q.buffer i node) (node_at-IsShaped s pos)

  pub store-IsShaped :
      IsShaped q k
      → (pos : ℕ) (node : QueueNode A) → length (set q.buffer (bit_and pos q.mask) node) ≡ 2 ^ k
  store-IsShaped s pos node = length-set q.buffer (bit_and pos q.mask) node ∙ s.nodes

  stored_self :
      IsShaped q k
      → (pos : ℕ) (node : QueueNode A)
      → get_elem? (set q.buffer (bit_and pos q.mask) node) (pos % 2 ^ k) ≡ some node
  stored_self s pos node =
      rw (store_lem s pos node) (get_elem?-set_self q.buffer (pos % 2 ^ k) node (index-lt s pos))

  pub stored_other :
      IsShaped q k
      → (pos : ℕ) (node : QueueNode A) (p : ℕ) → pos % 2 ^ k ≢ p % 2 ^ k
      → get_elem? (set q.buffer (bit_and pos q.mask) node) (p % 2 ^ k)
        ≡ get_elem? q.buffer (p % 2 ^ k)
  stored_other s pos node p ne = rw (store_lem s pos node) (get_elem?-set_ne q.buffer node ne)

module _ {A : Type 0} {q : LockFreeQueue A} {k : ℕ} {xs : List A} (h : Holds q k xs) where
  -- The node of `enqueue_pos` is not that of another position within a lap.
  tail_apart :
      (p : ℕ) → p < q.enqueue_pos → q.enqueue_pos < p + 2 ^ k → q.enqueue_pos % 2 ^ k ≢ p % 2 ^ k
  tail_apart p lo hi e =
      mod_ne p (q.enqueue_pos - p) (2 ^ k) (omega arith) (omega arith)
        (ap (λ (t : ℕ). t % 2 ^ k) (omega arith) ∙ e)

  head_apart :
      (p : ℕ) → q.dequeue_pos < p → p < q.dequeue_pos + 2 ^ k → q.dequeue_pos % 2 ^ k ≢ p % 2 ^ k
  head_apart p lo hi e =
      mod_ne q.dequeue_pos (p - q.dequeue_pos) (2 ^ k) (omega arith) (omega arith)
        (ap (λ (t : ℕ). t % 2 ^ k) (omega arith) ∙ sym e)

  -- `Enqueue` with room appends the message.
  pub publish-Holds :
      (x : A)
      → length xs < 2 ^ k
      → q.enqueue_pos + 1 < 2 ^ 62
      → Holds (publish q q.enqueue_pos x) k (xs ++ x ∷ [])
  unfolding publish
  publish-Holds x room e = record {
    shaped = record {
      cap_eq = h.shaped.cap_eq;
      mask_eq = h.shaped.mask_eq;
      nodes = store-IsShaped h.shaped q.enqueue_pos _;
      small = h.shaped.small;
    };
    at_least_two = h.at_least_two;
    counted = omega (arith, h.counted, length-append {0} xs (x ∷ []));
    fits = omega (arith, length-append {0} xs (x ∷ []));
    early = omega arith;
    stored = λ i y g. elim (get_elem?-snoc xs x i y g) [
      | inl (p, l) ↦
          stored_other h.shaped q.enqueue_pos _ (q.dequeue_pos + i) (
            tail_apart (q.dequeue_pos + i) (omega (arith, h.counted))
              (omega (arith, h.counted, h.fits)))
          ∙ h.stored i y p
      | inr (p, r) ↦
          ap (λ (t : ℕ). get_elem? (publish q q.enqueue_pos x).buffer (t % 2 ^ k))
            (omega (arith, h.counted))
          ∙ stored_self h.shaped q.enqueue_pos _
          ∙ ap₂ (λ (t : ℕ) (z : A). some (record { sequence = t; item = some z }))
              (omega (arith, h.counted)) (sym r)
    ];
    vacant = λ p lo hi.
        stored_other h.shaped q.enqueue_pos _ p (λ c.
          mod_ne q.enqueue_pos (p - q.enqueue_pos) (2 ^ k) (omega (arith, h.early))
            (omega (arith, h.counted, h.early))
            (ap (λ (t : ℕ). t % 2 ^ k) (omega (arith, h.early)) ∙ sym c))
        ∙ h.vacant p (omega (arith, h.early)) hi;
  }

module _ {A : Type 0} {q : LockFreeQueue A} {k : ℕ} {x : A} {xs : List A}
    (h : Holds q k (x ∷ xs)) where
  -- `Dequeue` of a queue that is not empty takes the oldest message off.
  pub release-Holds : Holds (release q q.dequeue_pos) k xs
  unfolding release
  release-Holds = record {
    shaped = record {
      cap_eq = h.shaped.cap_eq;
      mask_eq = h.shaped.mask_eq;
      nodes = store-IsShaped h.shaped q.dequeue_pos _;
      small = h.shaped.small;
    };
    at_least_two = h.at_least_two;
    counted = omega (arith, h.counted, h.early);
    fits = omega (arith, h.fits);
    early = h.early;
    stored = λ i y g.
        ap (λ (t : ℕ). get_elem? (release q q.dequeue_pos).buffer (t % 2 ^ k))
          {x = add64 q.dequeue_pos 1 + i} {y = q.dequeue_pos + suc i}
          (omega (arith, h.counted, h.early))
        ∙ stored_other h.shaped q.dequeue_pos _ (q.dequeue_pos + suc i) (
            head_apart h (q.dequeue_pos + suc i) (omega arith)
              (omega (arith, h.fits, get_elem?-lt xs i g)))
        ∙ h.stored (suc i) y g
        ∙ ap (λ (t : ℕ). some (record { sequence = t; item = some y }))
            (omega (arith, h.counted, h.early));
    vacant = λ p lo hi. elim (dec_lt p (q.dequeue_pos + 2 ^ k)) [
      | yes l ↦
          stored_other h.shaped q.dequeue_pos _ p (head_apart h p (omega (arith, h.counted)) l)
          ∙ h.vacant p lo l
      | no l ↦ lap p (omega (arith, h.counted, h.early))
    ];
  }
    where
      node : QueueNode A
      node = record { sequence = add64 (add64 q.dequeue_pos q.mask) 1; item = none }

      lap :
          (p : ℕ)
          → p ≡ q.dequeue_pos + 2 ^ k
          → get_elem? (set q.buffer (bit_and q.dequeue_pos q.mask) node) (p % 2 ^ k)
            ≡ some (record { sequence = p; item = none })
      lap p e =
          ap (λ (t : ℕ). get_elem? (set q.buffer (bit_and q.dequeue_pos q.mask) node) t)
            (ap (λ (t : ℕ). t % 2 ^ k) e ∙ add-mod_right q.dequeue_pos (2 ^ k))
          ∙ stored_self h.shaped q.dequeue_pos node
          ∙ ap (λ (t : ℕ). some (record { sequence = t; item = none }))
              (omega
                (arith, e, h.counted, h.early, h.shaped.mask_eq, h.shaped.small, one-le-pow k 2))

-- The nodes that `Enqueue` and `Dequeue` look at.
module _ {A : Type 0} {q : LockFreeQueue A} {k : ℕ} where
  pub node_at_lem : IsShaped q k → (pos : ℕ) → node_at q pos ≡ get_elem? q.buffer (pos % 2 ^ k)
  node_at_lem s pos = ap (get_elem? q.buffer) (node_at-IsShaped s pos)

  pub free_tail :
      {xs : List A}
      → Holds q k xs
      → length xs < 2 ^ k
      → node_at q q.enqueue_pos ≡ some (record { sequence = q.enqueue_pos; item = none })
  free_tail h room =
      node_at_lem h.shaped q.enqueue_pos
      ∙ h.vacant q.enqueue_pos (omega arith) (omega (arith, h.counted))

  pub taken_head :
      {x : A} {xs : List A}
      → Holds q k (x ∷ xs)
      → node_at q q.dequeue_pos ≡ some (record { sequence = q.dequeue_pos + 1; item = some x })
  taken_head {x} h =
      node_at_lem h.shaped q.dequeue_pos
      ∙ ap (λ (t : ℕ). get_elem? q.buffer (t % 2 ^ k)) (omega arith)
      ∙ h.stored 0 x refl
      ∙ ap (λ (t : ℕ). some (record { sequence = t; item = some x })) (omega arith)

  -- The tail of a full queue is its head, a lap further.
  pub taken_tail :
      {x : A} {xs : List A}
      → Holds q k (x ∷ xs)
      → suc (length xs) ≡ 2 ^ k
      → node_at q q.enqueue_pos ≡ some (record { sequence = q.dequeue_pos + 1; item = some x })
  taken_tail h full =
      node_at_lem h.shaped q.enqueue_pos
      ∙ ap (get_elem? q.buffer) (
          ap (λ (t : ℕ). t % 2 ^ k) (omega (arith, h.counted))
          ∙ add-mod_right q.dequeue_pos (2 ^ k))
      ∙ sym (node_at_lem h.shaped q.dequeue_pos)
      ∙ taken_head h
