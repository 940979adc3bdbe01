-- ===== src/Groups/Turns.antt =====
-- Whose turn it is in the round-robin assignments of pkg/kafka/group_coordinator.go and
-- pkg/kafka/consumer_groups.go.
use portask.Prelude.{
  ℕ, ◌+◌, ◌%◌, ◌≡◌, refl, ap, Bool, false, inl, inr, Bool-cases, if◌then◌else◌, Option, none, some,
  List, [], ◌∷◌, length, get_elem?, arith,
}
use portask.Prelude.Maps.{nat_eq, list_eq, beq_list, find, put, find-put}
use portask.Txn.Producer.{TopicPartition}
use portask.Groups.{Text}
use portask.Groups.Assign.{or_empty, no_assignments, deal}
use portask.Groups.Counts.{count, count-append, count_none}
use portask.Groups.Names.{found}

abbrev pub is_member : Option Text → Text → Bool
is_member none k = false
is_member (some m) k = beq_list m k

-- The partitions whose place in the list, from `i` on, is one of the member's, counted round.
unfoldable pub turns : List Text → Text → ℕ → List TopicPartition → List TopicPartition
turns members k i [] = []
turns members k i (x ∷ tps) =
    let rest = turns members k (i + 1) tps in
    if is_member (get_elem? members (i % length members)) k then x ∷ rest else rest

module _ {ℓ} {A : Type ℓ} (f : List A → List TopicPartition)
    (add : TopicPartition → List A → List A) (f_none : (tp : TopicPartition) → count tp (f []) ≡ 0)
    (f_add : (tp x : TopicPartition) (l : List A)
      → count tp (f (add x l)) ≡ count tp (f l) + count tp (x ∷ [])) where
  no_entries :
      (members : List Text) (a : List (Text × List A)) (k : Text) (tp : TopicPartition)
      → count tp (f (or_empty (find a k))) ≡ 0
      → count tp (f (or_empty (find (no_assignments members a) k))) ≡ 0
  unfolding no_assignments
  no_entries [] a k tp z = z
  no_entries (m ∷ members) a k tp z =
      no_entries members (put a m []) k tp (elim (Bool-cases (list_eq.beq m k)) [
        | inl p ↦ rw (find-put a m k [], p) (f_none tp)
        | inr p ↦ rw (find-put a m k [], p) z
      ])

  pub deal-turns :
      (members : List Text) (k : Text) (tp : TopicPartition) (i : ℕ) (tps : List TopicPartition)
      (a b : List (Text × List A))
      → deal add members i tps a ≡ some b
      → count tp (f (or_empty (find b k)))
        ≡ count tp (f (or_empty (find a k))) + count tp (turns members k i tps)
  unfolding deal turns
  deal-turns members k tp i [] a b e =
      let same : a ≡ b = cc e in
      omega (arith, count_none tp, ap (λ l. count tp (f (or_empty (find l k)))) same)
  deal-turns members k tp i (x ∷ tps) a b e =
      let (m, at) =
        found (get_elem? members (i % length members))
          (λ m. deal add members (i + 1) tps (put a m (add x (or_empty (find a m))))) e in
      let l = add x (or_empty (find a m)) in
      let rest = deal-turns members k tp (i + 1) tps (put a m l) b (rw (at, deal) at e) in
      let later = turns members k (i + 1) tps in
      elim (Bool-cases (list_eq.beq m k)) [
        | inr p ↦
            let entry : count tp (f (or_empty (find (put a m l) k)))
                ≡ count tp (f (or_empty (find a k))) =
              rw (find-put a m k l, p) refl in
            rw (at, turns, p) (omega (arith, rest, entry))
        | inl p ↦
            let entry : count tp (f (or_empty (find (put a m l) k))) ≡ count tp (f l) =
              rw (find-put a m k l, p) refl in
            let here = ap (λ i. count tp (f (or_empty (find a i)))) ((list_eq.beq_iff m k).0 p) in
            rw (at, turns, p)
              (omega (
                arith,
                rest,
                entry,
                here,
                f_add tp x (or_empty (find a m)),
                count-append tp (x ∷ []) later,
              ))
      ]

  pub dealt-turns :
      (members : List Text) (k : Text) (tp : TopicPartition) (tps : List TopicPartition)
      (b : List (Text × List A))
      → deal add members 0 tps (no_assignments members []) ≡ some b
      → count tp (f (or_empty (find b k))) ≡ count tp (turns members k 0 tps)
  unfolding find
  dealt-turns members k tp tps b e = omega (
    arith,
    deal-turns members k tp 0 tps (no_assignments members []) b e,
    no_entries members [] k tp (f_none tp),
  )
