-- ===== src/Groups/Complete.antt =====
-- Every partition is assigned once: for the policies of pkg/kafka/group_coordinator.go and the
-- assignors of pkg/kafka/consumer_groups.go.
use portask.Prelude.{
  ℕ, zero, suc, ◌+◌, ◌%◌, ◌<◌, ◌≡◌, refl, ap, Option, some, List, [], ◌∷◌, length, get_elem?, arith,
}
use native.Mathlib.Nat.{mod-lt}
use portask.Prelude.Maps.{nat_eq, list_eq, find, put}
use portask.Txn.Producer.{TopicPartition}
use portask.Groups.{Text}
use portask.Groups.Slices.{concat}
use portask.Groups.Assign.{
  PartitionAssignment, or_empty, no_assignments, tag, all_partitions, add_partition, deal,
  round_robin_policy, range_topics, range_policy,
}
use portask.Groups.Counts.{
  count, count-append, given, assigned, count-put, count-no_assignments, count_none,
  count-tag_append, count-given, given_none, given-append,
}
use portask.Groups.Ranges.{give, gives, range_topic_cuts}
use portask.Groups.Turns.{turns, dealt-turns}
use portask.Groups.Names.{
  AreMembers, AreMembers-names, no_assignments-Has, deal-names, range_topics-names,
}

member_at {ℓ} :
    {A : Type ℓ} (xs : List A) (i : ℕ) → i < length xs → (x : A) × (get_elem? xs i ≡ some x)
member_at [] i h = elim h [ ]
member_at (x ∷ xs) zero h = (x, refl)
member_at (x ∷ xs) (suc i) h = member_at xs i (omega arith)

-- A result without a panic that has assigned what `a` has and every partition of `tps`.
unfoldable pub Adds {ℓ} :
    {A : Type ℓ}
    → (List A → List TopicPartition)
    → Option (List (Text × List A))
    → List (Text × List A)
    → List TopicPartition
    → Type ℓ
Adds {A = A} f o a tps =
    (b : List (Text × List A)) × (o ≡ some b)
    × ((tp : TopicPartition) → count tp (assigned f b) ≡ count tp (assigned f a) + count tp tps)

module _ {ℓ} {A : Type ℓ} (f : List A → List TopicPartition)
    (add : TopicPartition → List A → List A) (f_none : (tp : TopicPartition) → count tp (f []) ≡ 0)
    (f_add : (tp x : TopicPartition) (l : List A)
      → count tp (f (add x l)) ≡ count tp (f l) + count tp (x ∷ []))
    (members : List Text) (some_member : 0 < length members) where
  pub deal-Adds :
      (i : ℕ) (tps : List TopicPartition) (a : List (Text × List A))
      → Adds f (deal add members i tps a) a tps
  unfolding Adds deal
  deal-Adds i [] a = (a, refl, λ tp. omega (arith, count_none tp))
  deal-Adds i (x ∷ tps) a =
      let (m, at) = member_at members (i % length members) (mod-lt i some_member) in
      let c = put a m (add x (or_empty (find a m))) in
      let (b, e, h) = deal-Adds (i + 1) tps c in
      (
        b,
        rw (at, deal) e,
        λ tp. omega (
          arith,
          h tp,
          count-append tp (x ∷ []) tps,
          count-put tp f a m (add x (or_empty (find a m))) (count tp (x ∷ [])) (f_none tp)
              (f_add tp x (or_empty (find a m))),
        ),
      )

count-give :
    (tp : TopicPartition) (topic m : Text) (s : List ℕ) (a : List (Text × List PartitionAssignment))
    → count tp (assigned given (give topic m s a))
      ≡ count tp (assigned given a) + count tp (tag topic s)
unfolding tag
count-give tp topic m [] a = omega (arith, count_none tp)
count-give tp topic m (p ∷ s) a =
    count-put tp given a m _ (count tp (tag topic (p ∷ s))) (given_none tp)
      (given-append tp (or_empty (find a m)) (record { topic = topic; partitions = p ∷ s }))

count-gives :
    (tp : TopicPartition) (topic : Text) (members : List Text) (ss : List (List ℕ))
    (a : List (Text × List PartitionAssignment))
    → length ss ≡ length members
    → count tp (assigned given (gives topic members ss a))
      ≡ count tp (assigned given a) + count tp (tag topic (concat ss))
unfolding gives concat tag
count-gives tp topic [] [] a e = omega (arith, count_none tp)
count-gives tp topic [] (s ∷ ss) a e = omega (arith, e)
count-gives tp topic (m ∷ members) [] a e = omega (arith, e)
count-gives tp topic (m ∷ members) (s ∷ ss) a e = omega (
  arith,
  count-give tp topic m s a,
  count-tag_append tp topic s (concat ss),
  count-gives tp topic members ss (give topic m s a) (omega (arith, e)),
)

range_topics-Adds :
    (m : Text) (members : List Text) (partitions : List (Text × List ℕ))
    (a : List (Text × List PartitionAssignment))
    → Adds given (range_topics (m ∷ members) partitions a) a (all_partitions partitions)
unfolding Adds range_topics all_partitions
range_topics-Adds m members [] a = (a, refl, λ tp. omega (arith, count_none tp))
range_topics-Adds m members ((topic, parts) ∷ topics) a =
    let (ss, l, c, s, g) = range_topic_cuts m members topic parts in
    let (b, e, h) = range_topics-Adds m members topics (gives topic (m ∷ members) ss a) in
    (
      b,
      rw (g a, range_topics) e,
      λ tp. omega (
        arith,
        h tp,
        count-gives tp topic (m ∷ members) ss a l,
        ap (λ p. count tp (tag topic p)) c,
        count-append tp (tag topic parts) (all_partitions topics),
      ),
    )

-- With at least one member, `RoundRobinRebalancePolicy.Assign` and `RangeRebalancePolicy.Assign`
-- return without a panic; exactly the members have an entry in what they return, and the entries of
-- each of the two give together every partition of every topic as often as it is listed, and none
-- else. By the first, each member gets the partitions whose turn in the list is its own, the members
-- taking turns in their order.
pub policies_assign_all :
    (m : Text) (members : List Text) (partitions : List (Text × List ℕ))
    → (a : List (Text × List PartitionAssignment)) × (b : List (Text × List PartitionAssignment))
      × (round_robin_policy (m ∷ members) partitions ≡ some a)
      × (range_policy (m ∷ members) partitions ≡ some b)
      × AreMembers (m ∷ members) a
      × AreMembers (m ∷ members) b
      × ((k : Text) (tp : TopicPartition)
          → count tp (given (or_empty (find a k)))
            ≡ count tp (turns (m ∷ members) k 0 (all_partitions partitions)))
      × ((tp : TopicPartition)
          → (count tp (assigned given a) ≡ count tp (all_partitions partitions))
            × (count tp (assigned given b) ≡ count tp (all_partitions partitions)))
unfolding round_robin_policy range_policy Adds
policies_assign_all m members partitions =
    let ms = m ∷ members in
    let start = no_assignments {A = PartitionAssignment} ms [] in
    let has = no_assignments-Has PartitionAssignment ms in
    let (a, e, h) =
      deal-Adds given add_partition given_none count-given ms (omega arith) 0
        (all_partitions partitions) start in
    let (b, f, k) = range_topics-Adds m members partitions start in
    (
      a,
      b,
      e,
      f,
      AreMembers-names ms a
          (deal-names add_partition ms 0 (all_partitions partitions) start a has e),
      AreMembers-names ms b (range_topics-names m members partitions start b has f),
      (λ k tp.
          dealt-turns given add_partition given_none count-given ms k tp (all_partitions partitions)
            a e),
      λ tp.
          let z = count-no_assignments tp given ms (given_none tp) in
          (omega (arith, h tp, z), omega (arith, k tp, z)),
    )
