-- ===== src/Groups/Assign.antt =====
-- The assignment policies: `RoundRobinRebalancePolicy` and `RangeRebalancePolicy` of
-- pkg/kafka/group_coordinator.go, `RoundRobinAssignor` and `RangeAssignor` of
-- pkg/kafka/consumer_groups.go. A panic is `none`.
use portask.Prelude.{
  ℕ, zero, suc, ◌+◌, ◌/◌, ◌%◌, ◌==◌, Option, none, some, List, [], ◌∷◌, ◌++◌, length, get_elem?,
  if◌then◌else◌,
}
use portask.Prelude.Maps.{nat_eq, list_eq, beq_list, find, put}
use portask.Txn.Producer.{TopicPartition}
use portask.Groups.{Text}
use portask.Groups.Slices.{slice, share}

pub record PartitionAssignment : Type 0 where
  pub topic : Text
  pub partitions : List ℕ

abbrev pub or_empty {ℓ} : {A : Type ℓ} → Option (List A) → List A
or_empty none = []
or_empty (some l) = l

-- `assignments[member] = make(...)` for every member
unfoldable pub no_assignments {ℓ} :
    {A : Type ℓ} → List Text → List (Text × List A) → List (Text × List A)
no_assignments [] a = a
no_assignments (m ∷ members) a = no_assignments members (put a m [])

unfoldable pub tag : Text → List ℕ → List TopicPartition
tag topic [] = []
tag topic (p ∷ partitions) = record { topic = topic; partition = p } ∷ tag topic partitions

unfoldable pub all_partitions : List (Text × List ℕ) → List TopicPartition
all_partitions [] = []
all_partitions ((topic, partitions) ∷ topics) = tag topic partitions ++ all_partitions topics

-- Find or create the entry of the topic.
unfoldable pub add_partition : TopicPartition → List PartitionAssignment → List PartitionAssignment
add_partition tp [] = record { topic = tp.topic; partitions = tp.partition ∷ [] } ∷ []
add_partition tp (a ∷ l) =
    if beq_list a.topic tp.topic
    then record a { partitions = a.partitions ++ tp.partition ∷ [] } ∷ l
    else a ∷ add_partition tp l

-- The round-robin loop from the partition `i` on, with what it does to a member's entry.
unfoldable pub deal {ℓ} :
    {A : Type ℓ}
    → (TopicPartition → List A → List A)
    → List Text
    → ℕ
    → List TopicPartition
    → List (Text × List A)
    → Option (List (Text × List A))
deal add members i [] a = some a
deal add members i (tp ∷ tps) a = elim (get_elem? members (i % length members)) [
  | none ↦ none
  | some m ↦ deal add members (i + 1) tps (put a m (add tp (or_empty (find a m))))
]

-- `RoundRobinRebalancePolicy.Assign`
unfoldable pub round_robin_policy :
    List Text → List (Text × List ℕ) → Option (List (Text × List PartitionAssignment))
round_robin_policy members partitions =
    deal add_partition members 0 (all_partitions partitions) (no_assignments members [])

-- `append(assignments[memberID], partition)`
unfoldable pub append_partition : TopicPartition → List TopicPartition → List TopicPartition
append_partition tp l = l ++ tp ∷ []

-- `RoundRobinAssignor.Assign`, over the keys of the map of members.
unfoldable pub round_robin_assignor :
    List Text → List (Text × List ℕ) → Option (List (Text × List TopicPartition))
round_robin_assignor [] topics = some []
round_robin_assignor (m ∷ members) topics =
    deal append_partition (m ∷ members) 0 (all_partitions topics) (no_assignments (m ∷ members) [])

-- The member's part of a topic in `RangeRebalancePolicy.Assign`.
unfoldable pub assign_range :
    Text
    → Text
    → ℕ
    → Option (List ℕ)
    → List (Text × List PartitionAssignment)
    → Option (List (Text × List PartitionAssignment))
assign_range topic m count none a = if count == 0 then some a else none
assign_range topic m count (some assigned) a =
    if count == 0
    then some a
    else some
        (put a m (or_empty (find a m) ++ record { topic = topic; partitions = assigned } ∷ []))

-- The members of a topic from the member `i` and the index `part_idx` on.
unfoldable pub range_members :
    Text
    → ℕ
    → ℕ
    → List ℕ
    → List Text
    → ℕ
    → ℕ
    → List (Text × List PartitionAssignment)
    → Option (List (Text × List PartitionAssignment))
range_members topic per_member remainder parts [] i part_idx a = some a
range_members topic per_member remainder parts (m ∷ members) i part_idx a =
    let count = share per_member remainder i in
    elim (assign_range topic m count (slice part_idx count parts) a) [
      | none ↦ none
      | some b ↦ range_members topic per_member remainder parts members (i + 1) (part_idx + count) b
    ]

-- A topic; the division by the number of members panics at 0.
unfoldable pub range_topic :
    List Text
    → Text
    → List ℕ
    → List (Text × List PartitionAssignment)
    → Option (List (Text × List PartitionAssignment))
range_topic [] topic parts a = none
range_topic (m ∷ members) topic parts a =
    let member_count = length (m ∷ members) in
    range_members topic (length parts / member_count) (length parts % member_count) parts
      (m ∷ members) 0 0 a

unfoldable pub range_topics :
    List Text
    → List (Text × List ℕ)
    → List (Text × List PartitionAssignment)
    → Option (List (Text × List PartitionAssignment))
range_topics members [] a = some a
range_topics members ((topic, parts) ∷ topics) a = elim (range_topic members topic parts a) [
  | none ↦ none
  | some b ↦ range_topics members topics b
]

-- `RangeRebalancePolicy.Assign`
unfoldable pub range_policy :
    List Text → List (Text × List ℕ) → Option (List (Text × List PartitionAssignment))
range_policy members partitions = range_topics members partitions (no_assignments members [])

-- The loop of a member in `RangeAssignor.Assign`, from `currentPartition` on, where `rest` waits.
unfoldable pub give_up_to :
    ℕ
    → Text
    → Text
    → List ℕ
    → List (Text × List TopicPartition)
    → List (Text × List TopicPartition) × List ℕ
give_up_to zero topic m rest a = (a, rest)
give_up_to (suc num) topic m [] a = (a, [])
give_up_to (suc num) topic m (p ∷ rest) a =
    give_up_to num topic m rest
      (put a m (or_empty (find a m) ++ record { topic = topic; partition = p } ∷ []))

unfoldable pub range_assign_members :
    Text
    → ℕ
    → ℕ
    → List Text
    → ℕ
    → List (Text × List TopicPartition) × List ℕ
    → List (Text × List TopicPartition) × List ℕ
range_assign_members topic per_member remainder [] i state = state
range_assign_members topic per_member remainder (m ∷ members) i (a, rest) =
    range_assign_members topic per_member remainder members (i + 1)
      (give_up_to (share per_member remainder i) topic m rest a)

unfoldable pub range_assign_topics :
    List Text
    → List (Text × List ℕ)
    → List (Text × List TopicPartition)
    → List (Text × List TopicPartition)
range_assign_topics members [] a = a
range_assign_topics members ((topic, partitions) ∷ topics) a =
    range_assign_topics members topics
      (range_assign_members topic (length partitions / length members)
        (length partitions % length members) members 0 (a, partitions)).0

-- `RangeAssignor.Assign`, over the keys of the map of members.
unfoldable pub range_assignor : List Text → List (Text × List ℕ) → List (Text × List TopicPartition)
range_assignor [] topics = []
range_assignor (m ∷ members) topics =
    range_assign_topics (m ∷ members) topics (no_assignments (m ∷ members) [])
