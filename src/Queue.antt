-- ===== src/Queue.antt =====
-- The bounded queue of pkg/queue/lockfree.go (`LockFreeQueue`), run without interleaving: each call
-- finishes before the next one starts, so a compare-and-swap of a value just loaded succeeds.
-- The capacity is a number, so Go's negative capacities are left out. `none` is a panic: the
-- index of a buffer of length 0. Sleeps and yields change no state and are left out.
pub mod Spec
pub mod Nodes
mod Rounds
pub mod Power
pub mod Fresh
pub mod Repr
pub mod Fifo
pub mod Refine
pub mod Wedge
pub mod Stuck
pub mod Single
mod Tests
use portask.Prelude.{
  ℕ, zero, suc, ◌+◌, ◌-◌, ◌/◌, ◌%◌, ◌^◌, Bool, true, false, Option, none, some, List, [], ◌∷◌, ltb,
  ◌==◌, if◌then◌else◌, get_elem?, set,
}
use portask.Prelude.Bits.{bit_and, bit_or}

-- `atomic.AddUint64`, and `+` and `-` on uint64.
abbrev pub add64 : ℕ → ℕ → ℕ
add64 a b = (a + b) % 2 ^ 64

abbrev pub sub64 : ℕ → ℕ → ℕ
sub64 a b = (a + 2 ^ 64 - b) % 2 ^ 64

pub data DropPolicy : Type 0 where
  drop_oldest drop_newest block : DropPolicy

-- `queueNode`: the pointer is `none` when it is nil.
pub record QueueNode (A : Type 0) : Type 0 where
  pub sequence : ℕ
  pub item : Option A

-- `LockFreeQueue`, without its name.
pub record LockFreeQueue (A : Type 0) : Type 0 where
  pub mask : ℕ
  pub buffer : List (QueueNode A)
  pub enqueue_pos : ℕ
  pub dequeue_pos : ℕ
  pub enqueue_count : ℕ
  pub dequeue_count : ℕ
  pub drop_count : ℕ
  pub capacity : ℕ
  pub drop_policy : DropPolicy

-- `n |= n >> k`.
abbrev pub smear : ℕ → ℕ → ℕ
smear k n = bit_or n (n / 2 ^ k)

-- The six assignments between `n--` and `n++`.
unfoldable pub smear_all : ℕ → ℕ
smear_all n = smear 32 (smear 16 (smear 8 (smear 4 (smear 2 (smear 1 n)))))

-- `nextPowerOf2`, on uint64: the last `n++` wraps.
unfoldable pub next_power_of_2 : ℕ → ℕ
next_power_of_2 n = if n == 0 then 1 else add64 (smear_all (n - 1)) 1

-- The capacity that `NewLockFreeQueue` works with: its argument if that has no two bits set.
unfoldable pub round_capacity : ℕ → ℕ
round_capacity c = if bit_and c (c - 1) == 0 then c else next_power_of_2 c

-- `make([]queueNode, capacity)` and the loop that numbers the nodes, from the index `i` on.
unfoldable pub fresh_nodes : {A : Type 0} → ℕ → ℕ → List (QueueNode A)
fresh_nodes i zero = []
fresh_nodes i (suc n) = record { sequence = i; item = none } ∷ fresh_nodes (i + 1) n

-- `NewLockFreeQueue`. `mask` is `uint64(capacity - 1)`.
unfoldable pub new_lock_free_queue : (A : Type 0) → ℕ → DropPolicy → LockFreeQueue A
unfolding fresh_nodes
new_lock_free_queue A c policy =
    let cap = round_capacity c in
    record {
      mask = sub64 cap 1;
      buffer = fresh_nodes 0 cap;
      enqueue_pos = 0;
      dequeue_pos = 0;
      enqueue_count = 0;
      dequeue_count = 0;
      drop_count = 0;
      capacity = cap;
      drop_policy = policy;
    }

-- The sign of `int64(seq) - int64(pos)`.
pub data Gap : Type 0 where
  level behind ahead : Gap

pub gap : ℕ → ℕ → Gap
gap seq pos =
    let d = sub64 seq pos in if d == 0 then level else if ltb d (2 ^ 63) then ahead else behind

module _ {A : Type 0} where
  -- `&q.buffer[pos & q.mask]`; out of range it panics.
  abbrev pub node_at : LockFreeQueue A → ℕ → Option (QueueNode A)
  node_at q pos = get_elem? q.buffer (bit_and pos q.mask)

  abbrev pub store_node : LockFreeQueue A → ℕ → QueueNode A → LockFreeQueue A
  store_node q pos node = record q { buffer = set q.buffer (bit_and pos q.mask) node }

  -- `atomic.AddUint64(&q.dropCount, 1)`
  unfoldable pub count_drop : LockFreeQueue A → LockFreeQueue A
  count_drop q = record q { drop_count = add64 q.drop_count 1 }

  -- What `Enqueue` does once it has claimed the position `pos`.
  unfoldable pub publish : LockFreeQueue A → ℕ → A → LockFreeQueue A
  publish q pos x = record (store_node q pos (record { sequence = add64 pos 1; item = some x })) {
    enqueue_pos = add64 pos 1;
    enqueue_count = add64 q.enqueue_count 1;
  }

  -- The compare-and-swap of `DropOldest`: the new dequeue position is `pos - capacity + 1`.
  pub skip_oldest : LockFreeQueue A → ℕ → LockFreeQueue A
  skip_oldest q pos = record q { dequeue_pos = add64 (sub64 pos q.capacity) 1 }

  -- The loop of `Enqueue` with so many retries left, and what follows it.
  pub enqueue_loop : ℕ → LockFreeQueue A → A → Option (Bool × LockFreeQueue A)
  enqueue_loop zero q x = some (false, count_drop q)
  enqueue_loop (suc r) q x = elim (node_at q q.enqueue_pos) [
    | none ↦ none
    | some node ↦ elim (gap node.sequence q.enqueue_pos) [
      | level ↦ some (true, publish q q.enqueue_pos x)
      | behind ↦ elim q.drop_policy [
        | drop_newest ↦ some (false, count_drop q)
        | drop_oldest ↦ enqueue_loop r (skip_oldest q q.enqueue_pos) x
        | block ↦ enqueue_loop r q x
      ]
      | ahead ↦ enqueue_loop r q x
    ]
  ]

  -- `Enqueue`
  pub enqueue : LockFreeQueue A → A → Option (Bool × LockFreeQueue A)
  enqueue q x = enqueue_loop 1000 q x

  -- What `Dequeue` does once it has claimed the position `pos`.
  pub release : LockFreeQueue A → ℕ → LockFreeQueue A
  release q pos =
      record (store_node q pos (record { sequence = add64 (add64 pos q.mask) 1; item = none })) {
        dequeue_pos = add64 pos 1;
        dequeue_count = add64 q.dequeue_count 1;
      }

  -- The loop of `Dequeue` with so many retries left. The pair is `(message, ok)`; a claimed node
  -- gives the pointer that it holds, which may be nil.
  pub dequeue_loop : ℕ → LockFreeQueue A → Option ((Option A × Bool) × LockFreeQueue A)
  dequeue_loop zero q = some ((none, false), q)
  dequeue_loop (suc r) q = elim (node_at q q.dequeue_pos) [
    | none ↦ none
    | some node ↦ elim (gap node.sequence (add64 q.dequeue_pos 1)) [
      | level ↦ some ((node.item, true), release q q.dequeue_pos)
      | behind ↦ some ((none, false), q)
      | ahead ↦ dequeue_loop r q
    ]
  ]

  -- `Dequeue`, and `TryDequeue`, which calls it.
  pub dequeue : LockFreeQueue A → Option ((Option A × Bool) × LockFreeQueue A)
  dequeue q = dequeue_loop 1000 q

  -- `Size`, on uint64; a caller reads it as an int.
  pub size : LockFreeQueue A → ℕ
  size q = sub64 q.enqueue_pos q.dequeue_pos

  -- `IsEmpty` and `IsFull`: `int(enq - deq)` is negative from `2^63` on.
  pub is_empty : LockFreeQueue A → Bool
  is_empty q = if size q == 0 then true else if ltb (size q) (2 ^ 63) then false else true

  pub is_full : LockFreeQueue A → Bool
  is_full q =
      if ltb (size q) (2 ^ 63) then (if ltb (size q) q.capacity then false else true) else false

  -- `tryForceEnqueueDropOldest`
  pub try_force_enqueue_drop_oldest : LockFreeQueue A → A → Option (Bool × LockFreeQueue A)
  try_force_enqueue_drop_oldest q x = elim q.drop_policy [
    | drop_oldest ↦ elim (dequeue q) [ none ↦ none | some (_, q') ↦ enqueue q' x ]
    | drop_newest ↦ some (false, q)
    | block ↦ some (false, q)
  ]
