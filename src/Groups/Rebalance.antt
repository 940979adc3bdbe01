-- ===== src/Groups/Rebalance.antt =====
-- What `StartRebalance` of pkg/kafka/consumer_groups.go assigns.
use portask.Prelude.{ℕ, ◌≡◌, refl, sym, ap, subst, ◌∙◌, none, some, List, ◌∷◌}
use portask.Prelude.Maps.{nat_eq, list_eq, find, put}
use portask.Txn.Producer.{TopicPartition}
use portask.Groups.{Text, stable, GroupMember, ConsumerGroup, next_generation}
use portask.Groups.Turns.{turns}
use portask.Groups.Assign.{or_empty, round_robin_assignor, range_assignor, all_partitions}
use portask.Groups.Counts.{count}
use portask.Groups.Names.{AreMembers}
use portask.Groups.Assignors.{held, assignors_assign_all}
use portask.Groups.Classic.{
  Groups, Outcome, on_group, is_stable_state, keys, reassigned, if_stable, rebalance,
  start_rebalance,
}

-- `StartRebalance` of a stable group with a member succeeds: it bumps the generation and leaves the
-- group stable with the same members; exactly these have an entry in the new assignments, and the
-- entries hold together every partition of every topic as often as it is listed, and none else, each
-- member the partitions whose turn in the list is its own. What `RangeAssignor.Assign` returns for
-- the group has entries for exactly the same members, which hold together the same partitions.
pub start_rebalance_assigns :
    (group_id id : Text) (topics : List (Text × List ℕ)) (groups : Groups) (g : ConsumerGroup)
    (m : GroupMember) (members : List (Text × GroupMember))
    → find groups group_id ≡ some g
    → g.state ≡ stable
    → g.members ≡ (id, m) ∷ members
    → (h : ConsumerGroup) × ◌≡◌ {A = Outcome}
        (start_rebalance group_id topics groups)
        (none, put groups group_id h)
      × (h.state ≡ stable)
      × (h.generation ≡ next_generation g.generation)
      × (h.members ≡ g.members)
      × AreMembers (keys g.members) h.assignments
      × AreMembers (keys g.members) (range_assignor (keys g.members) topics)
      × ((k : Text) (tp : TopicPartition)
          → count tp (or_empty (find h.assignments k))
            ≡ count tp (turns (keys g.members) k 0 (all_partitions topics)))
      × ((tp : TopicPartition)
          → (held tp h.assignments ≡ count tp (all_partitions topics))
            × (held tp (range_assignor (keys g.members) topics) ≡ count tp (all_partitions topics)))
unfolding start_rebalance keys
start_rebalance_assigns group_id id topics groups g m members e s k =
    let (a, f, named_all, named_range, by_turns, h) =
      assignors_assign_all id (keys members) topics in
    let named : keys g.members ≡ id ∷ keys members = ap keys k in
    (
      record g { generation = next_generation g.generation; assignments = a; state = stable },
      ap (λ o. on_group o groups (rebalance group_id topics groups)) e
          ∙ ap
              (λ b.
                if_stable b
                  (reassigned (round_robin_assignor (keys g.members) topics) group_id g groups)
                  groups)
              (ap is_stable_state s)
          ∙ ap (λ l. reassigned (round_robin_assignor l topics) group_id g groups) named
          ∙ ap (λ o. reassigned o group_id g groups) f,
      refl,
      refl,
      refl,
      subst (λ l. AreMembers l a) (sym named) named_all,
      subst (λ l. AreMembers l (range_assignor l topics)) (sym named) named_range,
      (λ k tp.
          by_turns k tp ∙ ap (λ l. count tp (turns l k 0 (all_partitions topics))) (sym named)),
      λ tp. ((h tp).0, ap (λ l. held tp (range_assignor l topics)) named ∙ (h tp).1),
    )
