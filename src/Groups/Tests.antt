-- ===== src/Groups/Tests.antt =====
-- Tests and examples of the consumer groups of pkg/kafka.
use portask.Prelude.{ℕ, ◌≡◌, refl, inr, length, some, none, List, [], ◌∷◌, arith}
use portask.Prelude.Maps.{nat_eq, list_eq, find, put}
use portask.Txn.Producer.{TopicPartition}
use portask.Groups.{next_generation, stable, Text, completing_rebalance, GroupMember, ConsumerGroup}
use portask.Groups.Slices.{concat, Shares, slice}
use portask.Groups.Assign.{
  or_empty, PartitionAssignment, round_robin_policy, range_policy, range_topic, range_members,
  assign_range, range_assignor, all_partitions, no_assignments, range_topics,
}
use portask.Groups.Counts.{count, given, assigned}
use portask.Groups.Ranges.{gives, range_topic_cuts}
use portask.Groups.Turns.{turns}
use portask.Groups.Names.{AreMembers}
use portask.Groups.Complete.{policies_assign_all}
use portask.Groups.Assignors.{held}
use portask.Groups.Coordinator.{
  Groups, ok, Join, new_group_coordinator, sync_group, leave_group, heartbeat,
}
use portask.Groups.Classic.{Outcome, keys, start_rebalance}
use portask.Groups.Rebalance.{start_rebalance_assigns}
use portask.Groups.Calls.{Call, join, sync, beat, leave, tick, AllOk, run_calls, run_calls-AllOk}
use portask.Groups.Sync.{given_to, Refused, leave_fences}
use portask.Groups.Delivered.{leader_sync_delivers}

abbrev parts : List ℕ
parts = 4 ∷ 5 ∷ 6 ∷ 7 ∷ 8 ∷ []

abbrev partitions : List (Text × List ℕ)
partitions = ((1 ∷ []), parts) ∷ ((2 ∷ []), 0 ∷ 1 ∷ []) ∷ []

abbrev two : List Text
two = (21 ∷ []) ∷ (22 ∷ []) ∷ []

range_run :
    range_policy two partitions
    ≡ some (
        (
          21 ∷ [],
          record { topic = 1 ∷ []; partitions = 4 ∷ 5 ∷ 6 ∷ [] }
              ∷ record { topic = 2 ∷ []; partitions = 0 ∷ [] }
              ∷ [],
        )
        ∷ (
          22 ∷ [],
          record { topic = 1 ∷ []; partitions = 7 ∷ 8 ∷ [] }
              ∷ record { topic = 2 ∷ []; partitions = 1 ∷ [] }
              ∷ [],
        )
        ∷ [])
unfolding range_policy range_topics range_topic range_members assign_range slice put no_assignments
    find
range_run = refl

range_topic_cuts_example :
    (ss : List (List ℕ)) × (◌≡◌ {A = ℕ} (length ss) 2)
    × (concat ss ≡ parts)
    × Shares 2 1 0 ss
    × ((a : List (Text × List PartitionAssignment))
        → range_topic two (1 ∷ []) parts a ≡ some (gives (1 ∷ []) two ss a))
range_topic_cuts_example = range_topic_cuts (21 ∷ []) ((22 ∷ []) ∷ []) (1 ∷ []) parts

policies_assign_all_example :
    (a : List (Text × List PartitionAssignment)) × (b : List (Text × List PartitionAssignment))
    × (round_robin_policy two partitions ≡ some a)
    × (range_policy two partitions ≡ some b)
    × AreMembers two a
    × AreMembers two b
    × ((k : Text) (tp : TopicPartition)
        → count tp (given (or_empty (find a k)))
          ≡ count tp (turns two k 0 (all_partitions partitions)))
    × ((tp : TopicPartition)
        → (count tp (assigned given a) ≡ count tp (all_partitions partitions))
          × (count tp (assigned given b) ≡ count tp (all_partitions partitions)))
policies_assign_all_example = policies_assign_all (21 ∷ []) ((22 ∷ []) ∷ []) partitions

abbrev joins : List ℕ → List ℕ → Join
joins id metadata = record {
  member_id = id;
  client_id = 9 ∷ [];
  client_host = 8 ∷ [];
  session_timeout = 30;
  rebalance_timeout = 60;
  metadata = metadata;
}

abbrev calls : List Call
calls =
    join (7 ∷ []) (joins (1 ∷ []) (50 ∷ [])) [] 10
    ∷ join (7 ∷ []) (joins [] (51 ∷ [])) (2 ∷ []) 11
    ∷ sync (7 ∷ []) (1 ∷ []) 0 ((2 ∷ [], 60 ∷ []) ∷ []) 12
    ∷ beat (7 ∷ []) (1 ∷ []) 0 90
    ∷ tick 100
    ∷ leave (7 ∷ []) (1 ∷ [])
    ∷ []

run_calls-AllOk_example : AllOk (run_calls calls new_group_coordinator)
run_calls-AllOk_example = run_calls-AllOk calls

abbrev member : List ℕ → List ℕ → GroupMember
member id metadata = record {
  id = id;
  client_id = 9 ∷ [];
  client_host = 8 ∷ [];
  session_timeout = 30;
  rebalance_timeout = 60;
  metadata = metadata;
  joined_at = 10;
  last_heartbeat = 10;
}

abbrev group : ConsumerGroup
group = record {
  id = 7 ∷ [];
  members = (1 ∷ [], member (1 ∷ []) (50 ∷ [])) ∷ (2 ∷ [], member (2 ∷ []) (51 ∷ [])) ∷ [];
  state = completing_rebalance;
  protocol = [];
  leader = 1 ∷ [];
  generation = 3;
  assignments = [];
  offsets = [];
  session_timeout = 0;
  rebalance_timeout = 0;
  created_at = 10;
  last_heartbeat = 0;
}

abbrev groups : Groups
groups = (7 ∷ [], group) ∷ []

-- Heartbeats of both members, and a `SyncGroup` of the second with an assignment of its own.
abbrev meanwhile : List Call
meanwhile =
    beat (7 ∷ []) (1 ∷ []) 3 20
    ∷ sync (7 ∷ []) (2 ∷ []) 3 ((2 ∷ [], 70 ∷ []) ∷ []) 20
    ∷ beat (7 ∷ []) (2 ∷ []) 3 21
    ∷ []

leader_sync_delivers_example :
    let (reply, after) =
      sync_group (7 ∷ []) (1 ∷ []) 3 ((1 ∷ [], 60 ∷ []) ∷ (2 ∷ [], 61 ∷ []) ∷ []) 20 groups in
    (reply ≡ ok (60 ∷ []))
    × ((sync_group (7 ∷ []) (2 ∷ []) 3 [] 22 (run_calls meanwhile after)).0 ≡ ok (61 ∷ []))
unfolding find given_to
leader_sync_delivers_example =
    leader_sync_delivers (7 ∷ []) (1 ∷ [], 60 ∷ []) ((2 ∷ [], 61 ∷ []) ∷ []) 20 22 groups group
      (member (1 ∷ []) (50 ∷ [])) (member (2 ∷ []) (51 ∷ [])) (2 ∷ []) meanwhile refl refl refl
      (tt, (inr (λ e. cc e), (tt, tt)))

leave_fences_example :
    let after = (leave_group (7 ∷ []) (1 ∷ []) groups).1 in
    Refused (heartbeat (7 ∷ []) (2 ∷ []) 3 20 after).0
    × Refused (sync_group (7 ∷ []) (2 ∷ []) 3 [] 20 after).0
unfolding find
leave_fences_example = leave_fences (7 ∷ []) (1 ∷ []) (2 ∷ []) [] 20 groups group refl (omega arith)

abbrev settled : ConsumerGroup
settled = record group { state = stable }

start_rebalance_assigns_example :
    (h : ConsumerGroup) × ◌≡◌ {A = Outcome}
      (start_rebalance (7 ∷ []) partitions ((7 ∷ [], settled) ∷ []))
      (none, put ((7 ∷ [], settled) ∷ []) (7 ∷ []) h)
    × (h.state ≡ stable)
    × (h.generation ≡ next_generation 3)
    × (h.members ≡ settled.members)
    × AreMembers (keys settled.members) h.assignments
    × AreMembers (keys settled.members) (range_assignor (keys settled.members) partitions)
    × ((k : Text) (tp : TopicPartition)
        → count tp (or_empty (find h.assignments k))
          ≡ count tp (turns (keys settled.members) k 0 (all_partitions partitions)))
    × ((tp : TopicPartition)
        → (held tp h.assignments ≡ count tp (all_partitions partitions))
          × (held tp (range_assignor (keys settled.members) partitions)
              ≡ count tp (all_partitions partitions)))
unfolding find
start_rebalance_assigns_example =
    start_rebalance_assigns (7 ∷ []) (1 ∷ []) partitions ((7 ∷ [], settled) ∷ []) settled
      (member (1 ∷ []) (50 ∷ [])) ((2 ∷ [], member (2 ∷ []) (51 ∷ [])) ∷ []) refl refl refl
