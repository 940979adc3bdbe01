-- ===== src/Queue/Tests.antt =====
-- Runs of the queue of pkg/queue/lockfree.go, and the theorems about it at concrete queues.
use portask.Prelude.{
  ℕ, ◌+◌, ◌^◌, ◌<◌, ◌≡◌, ◌≢◌, refl, true, false, none, some, List, [], ◌∷◌, arith,
}
use portask.Queue.{
  LockFreeQueue, drop_oldest, drop_newest, new_lock_free_queue, round_capacity, next_power_of_2,
  smear_all, publish,
}
use portask.Queue.Spec.{Call, put, get, Reply, accepted, taken, run}
use portask.Queue.Repr.{Holds}
use portask.Queue.Nodes.{publish-Holds}
use portask.Queue.Refine.{calls, calls_refine}
use portask.Queue.Fresh.{fresh-Holds, new_refines, round_capacity-IsNextPower}
use portask.Queue.Power.{IsNextPower}
use portask.Queue.Wedge.{drop_oldest_wedges, Refused}

abbrev script : List (Call ℕ)
script = put 7 ∷ put 8 ∷ put 9 ∷ get ∷ get ∷ get ∷ []

rounding : (round_capacity 3 ≡ 4) × (round_capacity 1000 ≡ 1024) × (round_capacity 8 ≡ 8)
unfolding round_capacity next_power_of_2 smear_all
rounding = (refl, refl, refl)

-- A queue of two nodes takes two messages of three.
overflow_replies :
    (run 2 [] script).0
    ≡ accepted true
      ∷ accepted true
      ∷ accepted false
      ∷ taken (some 7) true
      ∷ taken (some 8) true
      ∷ taken none false
      ∷ []
unfolding run
overflow_replies = refl

round_capacity-IsNextPower_example : IsNextPower 1000 (round_capacity 1000)
round_capacity-IsNextPower_example = round_capacity-IsNextPower 1000 (omega arith) (omega arith)

drop_newest-ne : drop_newest ≢ drop_oldest
drop_newest-ne e = cc e

new_refines_example :
    IsNextPower 2 (round_capacity 2)
    × (q : LockFreeQueue ℕ) × (calls (new_lock_free_queue ℕ 2 drop_newest) script
        ≡ some ((run (round_capacity 2) [] script).0, q))
new_refines_example =
    new_refines ℕ 2 drop_newest script (omega arith) (omega arith) drop_newest-ne (omega arith)

two_nodes : round_capacity 2 ≡ 2 ^ 1
unfolding round_capacity next_power_of_2 smear_all
two_nodes = refl

abbrev newest : LockFreeQueue ℕ
newest = new_lock_free_queue ℕ 2 drop_newest

newest-Holds : Holds newest 1 []
newest-Holds = fresh-Holds ℕ 2 1 drop_newest two_nodes (omega arith) (omega arith)

newest-policy : newest.drop_policy ≢ drop_oldest
unfolding new_lock_free_queue
newest-policy = drop_newest-ne

newest-early : newest.enqueue_pos + 6 < 2 ^ 62
unfolding new_lock_free_queue
newest-early = omega arith

calls_refine_example :
    (q : LockFreeQueue ℕ) × (calls newest script ≡ some ((run newest.capacity [] script).0, q))
    × Holds q 1 (run newest.capacity [] script).1
calls_refine_example = calls_refine script newest-Holds newest-policy newest-early

-- A DropOldest queue of two nodes with two messages.
abbrev oldest : LockFreeQueue ℕ
oldest = new_lock_free_queue ℕ 2 drop_oldest

abbrev half_full : LockFreeQueue ℕ
half_full = publish oldest oldest.enqueue_pos 7

abbrev full : LockFreeQueue ℕ
full = publish half_full half_full.enqueue_pos 8

full-Holds : Holds full 1 (7 ∷ 8 ∷ [])
unfolding new_lock_free_queue publish
full-Holds =
    publish-Holds
      (publish-Holds (fresh-Holds ℕ 2 1 drop_oldest two_nodes (omega arith) (omega arith)) 7
        (omega arith) (omega arith))
      8 (omega arith) (omega arith)

full-policy : full.drop_policy ≡ drop_oldest
unfolding new_lock_free_queue publish
full-policy = refl

drop_oldest_wedges_example :
    (rs : List (Reply ℕ)) × (q : LockFreeQueue ℕ) × (calls full (put 9 ∷ get ∷ get ∷ put 10 ∷ [])
      ≡ some (accepted false ∷ rs, q))
    × Refused rs
drop_oldest_wedges_example =
    drop_oldest_wedges full-Holds (omega arith) full-policy 9 (get ∷ get ∷ put 10 ∷ [])
