-- ===== src/Groups/Assignors.antt =====
-- Every partition is assigned once by the assignors of pkg/kafka/consumer_groups.go.
use portask.Prelude.{
  ℕ, zero, suc, ◌+◌, ◌-◌, ◌/◌, ◌%◌, ◌≡◌, refl, ◌∙◌, some, List, [], ◌∷◌, ◌++◌, length, arith,
}
use portask.Prelude.Maps.{nat_eq, list_eq, find, put}
use portask.Txn.Producer.{TopicPartition}
use portask.Groups.{Text}
use portask.Groups.Slices.{share, owed, owed_all}
use portask.Groups.Assign.{
  or_empty, no_assignments, tag, all_partitions, append_partition, round_robin_assignor, give_up_to,
  range_assign_members, range_assign_topics, range_assignor,
}
use portask.Groups.Counts.{
  count, count-append, assigned, count-put, count-no_assignments, count_none,
}
use portask.Groups.Turns.{turns, dealt-turns}
use portask.Groups.Names.{
  AreMembers, AreMembers-names, no_assignments-Has, deal-names, names-range_assign_topics,
}
use portask.Groups.Complete.{Adds, deal-Adds}

abbrev pub Entries : Type 0
Entries = List (Text × List TopicPartition)

abbrev pub held : TopicPartition → Entries → ℕ
held tp a = count tp (assigned (λ l. l) a)

-- What is held and what waits stays the same in number.
record Moves (topic : Text) (a : Entries) (rest : List ℕ) (n : ℕ) (state : Entries × List ℕ)
    : Type 0 where
  keeps :
      (tp : TopicPartition)
      → held tp state.0 + count tp (tag topic state.1) ≡ held tp a + count tp (tag topic rest)
  takes : length state.1 ≡ length rest - n

give_up_to-Moves :
    (n : ℕ) (topic m : Text) (rest : List ℕ) (a : Entries)
    → Moves topic a rest n (give_up_to n topic m rest a)
unfolding give_up_to tag
give_up_to-Moves zero topic m rest a = record { keeps = λ tp. refl; takes = omega arith }
give_up_to-Moves (suc n) topic m [] a = record { keeps = λ tp. refl; takes = omega arith }
give_up_to-Moves (suc n) topic m (p ∷ rest) a =
    let x : TopicPartition = record { topic = topic; partition = p } in
    let l = or_empty (find a m) in
    let b = put a m (l ++ x ∷ []) in
    let r = give_up_to-Moves n topic m rest b in
    record {
      keeps = λ tp. omega (
        arith,
        r.keeps tp,
        count-append tp (x ∷ []) (tag topic rest),
        count-put tp (λ l. l) a m (l ++ x ∷ []) (count tp (x ∷ [])) (count_none tp)
            (count-append tp l (x ∷ [])),
      );
      takes = omega (arith, r.takes);
    }

less : (l n o : ℕ) {k : ℕ} → k ≡ l - n → k - o ≡ l - (n + o)
less l n o e = omega (arith, e)

range_assign_members-Moves :
    (topic : Text) (per_member remainder : ℕ) (members : List Text) (i : ℕ) (a : Entries)
    (rest : List ℕ)
    → Moves topic a rest
        (owed (length members) per_member remainder i)
        (range_assign_members topic per_member remainder members i (a, rest))
unfolding range_assign_members owed
range_assign_members-Moves topic per_member remainder [] i a rest = record {
  keeps = λ tp. refl;
  takes = omega arith;
}
range_assign_members-Moves topic per_member remainder (m ∷ members) i a rest =
    let n = share per_member remainder i in
    let g = give_up_to-Moves n topic m rest a in
    let (b, later) = give_up_to n topic m rest a in
    let r = range_assign_members-Moves topic per_member remainder members (i + 1) b later in
    record {
      keeps = λ tp. r.keeps tp ∙ g.keeps tp;
      takes =
          r.takes
          ∙ less (length rest) n (owed (length members) per_member remainder (i + 1)) g.takes;
    }

all_taken :
    (topic : Text) (n : ℕ) (parts rest : List ℕ) (tp : TopicPartition)
    → length rest ≡ length parts - n
    → 0 + n ≡ length parts
    → count tp (tag topic rest) ≡ 0
unfolding tag
all_taken topic n parts [] tp e o = count_none tp
all_taken topic n parts (p ∷ rest) tp e o = omega (arith, e, o)

range_assign_topics-held :
    (m : Text) (members : List Text) (topics : List (Text × List ℕ)) (a : Entries)
    (tp : TopicPartition)
    → held tp (range_assign_topics (m ∷ members) topics a)
      ≡ held tp a + count tp (all_partitions topics)
unfolding range_assign_topics all_partitions
range_assign_topics-held m members [] a tp = omega (arith, count_none tp)
range_assign_topics-held m members ((topic, parts) ∷ topics) a tp =
    let ms = m ∷ members in
    let per = length parts / length ms in
    let r = length parts % length ms in
    let mv = range_assign_members-Moves topic per r ms 0 a parts in
    let end = range_assign_members topic per r ms 0 (a, parts) in
    let none_left =
      all_taken topic (owed (length ms) per r 0) parts end.1 tp mv.takes
        (owed_all (length ms) (length parts) (omega arith)) in
    omega (
      arith,
      range_assign_topics-held m members topics end.0 tp,
      mv.keeps tp,
      none_left,
      count-append tp (tag topic parts) (all_partitions topics),
    )

appended :
    (tp x : TopicPartition) (l : List TopicPartition)
    → count tp (append_partition x l) ≡ count tp l + count tp (x ∷ [])
unfolding append_partition
appended tp x l = count-append tp l (x ∷ [])

-- With at least one member, `RoundRobinAssignor.Assign` returns without a panic; exactly the members
-- have an entry in what it and `RangeAssignor.Assign` return, and the entries of each of the two hold
-- together every partition of every topic as often as it is listed, and none else. By the first, each
-- member gets the partitions whose turn in the list is its own.
pub assignors_assign_all :
    (m : Text) (members : List Text) (topics : List (Text × List ℕ))
    → (a : Entries) × (round_robin_assignor (m ∷ members) topics ≡ some a)
      × AreMembers (m ∷ members) a
      × AreMembers (m ∷ members) (range_assignor (m ∷ members) topics)
      × ((k : Text) (tp : TopicPartition)
          → count tp (or_empty (find a k))
            ≡ count tp (turns (m ∷ members) k 0 (all_partitions topics)))
      × ((tp : TopicPartition)
          → (held tp a ≡ count tp (all_partitions topics))
            × (held tp (range_assignor (m ∷ members) topics) ≡ count tp (all_partitions topics)))
unfolding round_robin_assignor range_assignor Adds
assignors_assign_all m members topics =
    let ms = m ∷ members in
    let start = no_assignments {A = TopicPartition} ms [] in
    let has = no_assignments-Has TopicPartition ms in
    let (a, e, h) =
      deal-Adds (λ l. l) append_partition count_none appended ms (omega arith) 0
        (all_partitions topics) start in
    (
      a,
      e,
      AreMembers-names ms a
          (deal-names append_partition ms 0 (all_partitions topics) start a has e),
      AreMembers-names ms (range_assign_topics ms topics start)
          (names-range_assign_topics ms topics start has),
      (λ k tp.
          dealt-turns (λ l. l) append_partition count_none appended ms k tp (all_partitions topics)
            a e),
      λ tp.
          let z = count-no_assignments tp (λ l. l) ms (count_none tp) in
          (
            omega (arith, h tp, z),
            omega (arith, range_assign_topics-held m members topics start tp, z),
          ),
    )
