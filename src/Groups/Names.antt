-- ===== src/Groups/Names.antt =====
-- Who has an entry in the assignments of pkg/kafka/group_coordinator.go and
-- pkg/kafka/consumer_groups.go: the members, and nobody else.
use portask.Prelude.{
  ℕ, zero, suc, ◌+◌, ◌/◌, ◌%◌, ◌≡◌, refl, sym, ap, ◌∙◌, true, false≢true, ◌||◌, inl, inr,
  Bool-cases, Option, none, some, List, [], ◌∷◌, ◌++◌, length, get_elem?, arith,
}
use portask.Prelude.Maps.{nat_eq, list_eq, beq_refl, contains, find, put}
use portask.Txn.Producer.{TopicPartition}
use portask.Groups.{Text}
use portask.Groups.Slices.{share}
use portask.Groups.Assign.{
  PartitionAssignment, or_empty, no_assignments, deal, range_topics, give_up_to,
  range_assign_members, range_assign_topics,
}
use portask.Groups.Ranges.{give, gives, range_topic_cuts}

unfoldable pub names {ℓ} : {V : Type ℓ} → List (Text × V) → List Text
names [] = []
names ((k, v) ∷ a) = k ∷ names a

-- Exactly the members have an entry.
abbrev pub AreMembers {ℓ} : {V : Type ℓ} → List Text → List (Text × V) → Type 0
AreMembers members a = (k : Text) → contains (names a) k ≡ contains members k

-- Every one of the members has an entry.
abbrev pub Has {ℓ} : {V : Type ℓ} → List Text → List (Text × V) → Type 0
Has members a = (k : Text) → contains members k ≡ true → contains (names a) k ≡ true

member-contains :
    (members : List Text) (i : ℕ) (m : Text)
    → get_elem? members i ≡ some m
    → contains members m ≡ true
unfolding contains
member-contains [] i m e = absurd (cc e)
member-contains (x ∷ members) zero m e = let same : x ≡ m = cc e in rw (same, beq_refl m) refl
member-contains (x ∷ members) (suc i) m e =
    let rest = member-contains members i m e in ground (arith, rest)

module _ {ℓ} {V : Type ℓ} where
  names-put :
      (a : List (Text × V)) (m : Text) (v : V)
      → contains (names a) m ≡ true
      → names (put a m v) ≡ names a
  unfolding names put contains
  names-put [] m v h = absurd (false≢true h)
  names-put ((k, w) ∷ a) m v h = elim (Bool-cases (list_eq.beq k m)) [
    | inl p ↦ rw p refl
    | inr p ↦ rw p (ap (λ l. k ∷ l) (names-put a m v (rw p at h)))
  ]

  contains-put :
      (a : List (Text × V)) (m k : Text) (v : V)
      → contains (names (put a m v)) k ≡ (list_eq.beq m k || contains (names a) k)
  unfolding names put contains
  contains-put [] m k v = ground arith
  contains-put ((j, w) ∷ a) m k v = elim (Bool-cases (list_eq.beq j m)) [
    | inl p ↦
        let same : j ≡ m = (list_eq.beq_iff j m).0 p in
        elim (Bool-cases (list_eq.beq m k)) [
          | inl q ↦ rw (p, same, q) refl
          | inr q ↦ rw (p, same, q) refl
        ]
    | inr p ↦ rw (p, contains-put a m k v) (ground arith)
  ]

  Has-names :
      (members : List Text) (a b : List (Text × V))
      → names b ≡ names a
      → Has members a
      → Has members b
  Has-names members a b e h k c = ap (λ l. contains l k) e ∙ h k c

  Has-tail :
      (m : Text) (members : List Text) (a : List (Text × V)) → Has (m ∷ members) a → Has members a
  unfolding contains
  Has-tail m members a h k c = h k (ground (arith, c))

  Has-head :
      (m : Text) (members : List Text) (a : List (Text × V))
      → Has (m ∷ members) a
      → contains (names a) m ≡ true
  unfolding contains
  Has-head m members a h = h m (rw (beq_refl m) refl)

pub found {ℓ} :
    {B : Type ℓ} (o : Option Text) (f : Text → Option B) {b : B}
    → elim o [ none ↦ none | some m ↦ f m ] ≡ some b
    → (m : Text) × (o ≡ some m)
found none f e = absurd (cc e)
found (some m) f e = (m, refl)

module _ {ℓ} {A : Type ℓ} where
  no_assignments-contains :
      (members : List Text) (a : List (Text × List A)) (k : Text)
      → contains (names (no_assignments members a)) k ≡ (contains members k || contains (names a) k)
  unfolding no_assignments contains
  no_assignments-contains [] a k = refl
  no_assignments-contains (m ∷ members) a k =
      let rest = no_assignments-contains members (put a m []) k in
      let here = contains-put a m k [] in ground (arith, rest, here)

  -- What keeps the names of the entries that were made for the members.
  pub AreMembers-names :
      (members : List Text) (b : List (Text × List A))
      → names b ≡ names (no_assignments {A = A} members [])
      → AreMembers members b
  unfolding contains names
  AreMembers-names members b e k =
      let all = no_assignments-contains members [] k in
      ap (λ l. contains l k) e ∙ all ∙ ground arith

  pub deal-names :
      (add : TopicPartition → List A → List A) (members : List Text) (i : ℕ)
      (tps : List TopicPartition) (a b : List (Text × List A))
      → Has members a
      → deal add members i tps a ≡ some b
      → names b ≡ names a
  unfolding deal
  deal-names add members i [] a b h e = ap names (sym (cc e))
  deal-names add members i (x ∷ tps) a b h e =
      let (m, at) =
        found (get_elem? members (i % length members))
          (λ m. deal add members (i + 1) tps (put a m (add x (or_empty (find a m))))) e in
      let l = add x (or_empty (find a m)) in
      let same = names-put a m l (h m (member-contains members (i % length members) m at)) in
      deal-names add members (i + 1) tps (put a m l) b (Has-names members a (put a m l) same h)
        (rw (at, deal) at e)
      ∙ same

names-give :
    (topic m : Text) (s : List ℕ) (a : List (Text × List PartitionAssignment))
    → contains (names a) m ≡ true
    → names (give topic m s a) ≡ names a
names-give topic m [] a h = refl
names-give topic m (p ∷ s) a h = names-put a m _ h

names-gives :
    (topic : Text) (members : List Text) (ss : List (List ℕ))
    (a : List (Text × List PartitionAssignment))
    → Has members a
    → names (gives topic members ss a) ≡ names a
unfolding gives
names-gives topic [] ss a h = refl
names-gives topic (m ∷ members) [] a h = refl
names-gives topic (m ∷ members) (s ∷ ss) a h =
    let same = names-give topic m s a (Has-head m members a h) in
    let b = give topic m s a in
    names-gives topic members ss b (Has-names members a b same (Has-tail m members a h)) ∙ same

pub range_topics-names :
    (m : Text) (members : List Text) (partitions : List (Text × List ℕ))
    (a b : List (Text × List PartitionAssignment))
    → Has (m ∷ members) a
    → range_topics (m ∷ members) partitions a ≡ some b
    → names b ≡ names a
unfolding range_topics
range_topics-names m members [] a b h e = ap names (sym (cc e))
range_topics-names m members ((topic, parts) ∷ topics) a b h e =
    let (ss, l, c, s, g) = range_topic_cuts m members topic parts in
    let a' = gives topic (m ∷ members) ss a in
    let same = names-gives topic (m ∷ members) ss a h in
    range_topics-names m members topics a' b (Has-names (m ∷ members) a a' same h)
      (rw (g a, range_topics) at e)
    ∙ same

names-give_up_to :
    (n : ℕ) (topic m : Text) (rest : List ℕ) (a : List (Text × List TopicPartition))
    → contains (names a) m ≡ true
    → names (give_up_to n topic m rest a).0 ≡ names a
unfolding give_up_to
names-give_up_to zero topic m rest a h = refl
names-give_up_to (suc n) topic m [] a h = refl
names-give_up_to (suc n) topic m (p ∷ rest) a h =
    let x : TopicPartition = record { topic = topic; partition = p } in
    let b = put a m (or_empty (find a m) ++ x ∷ []) in
    let same = names-put a m (or_empty (find a m) ++ x ∷ []) h in
    names-give_up_to n topic m rest b (ap (λ l. contains l m) same ∙ h) ∙ same

names-range_assign_members :
    (topic : Text) (per_member remainder : ℕ) (members : List Text) (i : ℕ)
    (a : List (Text × List TopicPartition)) (rest : List ℕ)
    → Has members a
    → names (range_assign_members topic per_member remainder members i (a, rest)).0 ≡ names a
unfolding range_assign_members
names-range_assign_members topic per_member remainder [] i a rest h = refl
names-range_assign_members topic per_member remainder (m ∷ members) i a rest h =
    let n = share per_member remainder i in
    let same = names-give_up_to n topic m rest a (Has-head m members a h) in
    let (b, later) = give_up_to n topic m rest a in
    names-range_assign_members topic per_member remainder members (i + 1) b later
      (Has-names members a b same (Has-tail m members a h))
    ∙ same

pub names-range_assign_topics :
    (members : List Text) (topics : List (Text × List ℕ)) (a : List (Text × List TopicPartition))
    → Has members a
    → names (range_assign_topics members topics a) ≡ names a
unfolding range_assign_topics
names-range_assign_topics members [] a h = refl
names-range_assign_topics members ((topic, partitions) ∷ topics) a h =
    let per = length partitions / length members in
    let r = length partitions % length members in
    let same = names-range_assign_members topic per r members 0 a partitions h in
    let b = (range_assign_members topic per r members 0 (a, partitions)).0 in
    names-range_assign_topics members topics b (Has-names members a b same h) ∙ same

pub no_assignments-Has {ℓ} :
    (A : Type ℓ) (members : List Text) → Has members (no_assignments {A = A} members [])
no_assignments-Has A members k c = no_assignments-contains members [] k ∙ rw c refl
