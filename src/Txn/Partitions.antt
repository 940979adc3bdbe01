-- ===== src/Txn/Partitions.antt =====
-- The partitions of a transaction (`AddPartitionsToTransaction` of pkg/kafka/transactions.go) as a
-- set: a test of a topic and a partition.
use portask.Prelude.{
  ℕ, ◌≡◌, refl, sym, ap, ◌∙◌, Bool, true, false, false≢true, ◌==◌, ==_iff, ◌||◌, if◌then◌else◌,
  Bool-cases, inl, inr, Option, none, some, List, [], ◌∷◌, ◌++◌,
}
use portask.Prelude.Maps.{
  nat_eq, list_eq, beq_list, beq_list_iff, contains, contains-append, find, put, find-put_self,
  find-put_ne,
}
use portask.Txn.Coordinator.{unique_partitions, merge_list, merge_partitions}

unfoldable pub or_none : Option (List ℕ) → List ℕ
or_none none = []
or_none (some l) = l

-- Is the partition in the topic's list?
unfoldable pub enrolled : List (List ℕ × List ℕ) → List ℕ → ℕ → Bool
enrolled m topic p = contains (or_none (find m topic)) p

-- Does a request list the partition under the topic?
unfoldable pub listed : List (List ℕ × List ℕ) → List ℕ → ℕ → Bool
listed [] topic p = false
listed ((t, l) ∷ request) topic p =
    (if beq_list t topic then contains l p else false) || listed request topic p

contains-unique_partitions :
    (seen xs : List ℕ) (p : ℕ)
    → contains seen p ≡ false
    → contains (unique_partitions seen xs) p ≡ contains xs p
unfolding unique_partitions contains
contains-unique_partitions seen [] p n = refl
contains-unique_partitions seen (x ∷ xs) p n = elim (Bool-cases (x == p)) [
  | inl e ↦ rw (ap (contains seen) ((==_iff x p).0 e) ∙ n, e) refl
  | inr e ↦ elim (Bool-cases (contains seen x)) [
    | inl old ↦ rw (old, e) (contains-unique_partitions seen xs p n)
    | inr new ↦ rw (new, e) (contains-unique_partitions (x ∷ seen) xs p (rw e n))
  ]
]

contains-merge_list :
    (o : Option (List ℕ)) (l : List ℕ) (p : ℕ)
    → contains (merge_list o l) p ≡ (contains (or_none o) p || contains l p)
unfolding merge_list or_none contains
contains-merge_list none l p = refl
contains-merge_list (some l') l p =
    contains-unique_partitions [] (l' ++ l) p refl ∙ contains-append l' l p

or_assoc : (a b c : Bool) → ((a || b) || c) ≡ (a || (b || c))
or_assoc true b c = refl
or_assoc false b c = refl

or_false : (a : Bool) → (a || false) ≡ a
or_false true = refl
or_false false = refl

enrolled-put :
    (m : List (List ℕ × List ℕ)) (t l topic : List ℕ) (p : ℕ)
    → enrolled (put m t (merge_list (find m t) l)) topic p
      ≡ (enrolled m topic p || (if beq_list t topic then contains l p else false))
unfolding enrolled or_none
enrolled-put m t l topic p = elim (Bool-cases (beq_list t topic)) [
  | inl e ↦
      let v = merge_list (find m t) l in
      let q = (beq_list_iff t topic).0 e in
      rw e (
        ap (λ k. contains (or_none (find (put m t v) k)) p) (sym q)
        ∙ ap (λ o. contains (or_none o) p) (find-put_self m t v)
        ∙ contains-merge_list (find m t) l p
        ∙ ap (λ k. contains (or_none (find m k)) p || contains l p) q)
  | inr n ↦
      let v = merge_list (find m t) l in
      rw n (
        ap (λ o. contains (or_none o) p)
          (find-put_ne m {k = t} {j = topic} v
            (λ q. false≢true (sym n ∙ (beq_list_iff t topic).1 q)))
        ∙ sym (or_false (contains (or_none (find m topic)) p)))
]

-- After a request a partition is in the transaction if it was, or if the request lists it.
pub enrolled-merge_partitions :
    (have request : List (List ℕ × List ℕ)) (topic : List ℕ) (p : ℕ)
    → enrolled (merge_partitions have request) topic p
      ≡ (enrolled have topic p || listed request topic p)
unfolding merge_partitions listed
enrolled-merge_partitions have [] topic p = sym (or_false (enrolled have topic p))
enrolled-merge_partitions have ((t, l) ∷ request) topic p =
    enrolled-merge_partitions (put have t (merge_list (find have t) l)) request topic p
    ∙ ap (λ b. b || listed request topic p) (enrolled-put have t l topic p)
    ∙ or_assoc (enrolled have topic p) (if beq_list t topic then contains l p else false)
        (listed request topic p)
