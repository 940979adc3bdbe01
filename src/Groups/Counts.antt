-- ===== src/Groups/Counts.antt =====
-- How often a partition occurs in lists and assignments.
use portask.Prelude.{
  ℕ, ◌+◌, ◌≡◌, refl, ap, ◌∙◌, inl, inr, Bool-cases, some, List, [], ◌∷◌, ◌++◌, if◌then◌else◌, arith,
}
use portask.Prelude.Maps.{nat_eq, list_eq, find, put, find-put}
use portask.Txn.Producer.{TopicPartition, partition_eq}
use portask.Groups.{Text}
use portask.Groups.Assign.{PartitionAssignment, or_empty, no_assignments, tag, add_partition}

unfoldable pub count : TopicPartition → List TopicPartition → ℕ
count tp [] = 0
count tp (x ∷ xs) = (if partition_eq.beq x tp then 1 else 0) + count tp xs

pub count-append :
    (tp : TopicPartition) (xs ys : List TopicPartition)
    → count tp (xs ++ ys) ≡ count tp xs + count tp ys
unfolding count
count-append tp [] ys = omega arith
count-append tp (x ∷ xs) ys = omega (arith, count-append tp xs ys)

-- What the entries of a member give it.
unfoldable pub given : List PartitionAssignment → List TopicPartition
given [] = []
given (a ∷ l) = tag a.topic a.partitions ++ given l

-- Everything that is assigned, where `f` is what an entry gives.
unfoldable pub assigned {ℓ} :
    {V : Type ℓ} → (V → List TopicPartition) → List (Text × V) → List TopicPartition
assigned f [] = []
assigned f ((m, v) ∷ a) = f v ++ assigned f a

module _ (tp : TopicPartition) where
  replaced :
      (v w a : List TopicPartition) (n : ℕ)
      → count tp v ≡ count tp w + n
      → count tp (v ++ a) ≡ count tp (w ++ a) + n
  replaced v w a n e = omega (arith, count-append tp v a, count-append tp w a, e)

  kept :
      (w a b : List TopicPartition) (n : ℕ)
      → count tp b ≡ count tp a + n
      → count tp (w ++ b) ≡ count tp (w ++ a) + n
  kept w a b n e = omega (arith, count-append tp w a, count-append tp w b, e)

module _ {ℓ} {A : Type ℓ} (tp : TopicPartition) (f : List A → List TopicPartition) where
  pub count-put :
      (a : List (Text × List A)) (m : Text) (v : List A) (n : ℕ)
      → count tp (f []) ≡ 0
      → count tp (f v) ≡ count tp (f (or_empty (find a m))) + n
      → count tp (assigned f (put a m v)) ≡ count tp (assigned f a) + n
  unfolding assigned find put count
  count-put [] m v n z e = omega (arith, count-append tp (f v) [], z, e)
  count-put ((k, w) ∷ a) m v n z e = elim (Bool-cases (list_eq.beq k m)) [
    | inl p ↦
        let e' : count tp (f v) ≡ count tp (f w) + n = rw p at e in
        rw p (replaced tp (f v) (f w) (assigned f a) n e')
    | inr p ↦
        let e' : count tp (f v) ≡ count tp (f (or_empty (find a m))) + n = rw p at e in
        rw p (kept tp (f w) (assigned f a) (assigned f (put a m v)) n (count-put a m v n z e'))
  ]

  empty_or :
      (a : List (Text × List A)) (m j : Text)
      → count tp (f []) ≡ 0
      → count tp (f (or_empty (find a j))) ≡ 0
      → count tp (f (or_empty (if list_eq.beq m j then some [] else find a j))) ≡ 0
  empty_or a m j z h = elim (Bool-cases (list_eq.beq m j)) [ inl p ↦ rw p z | inr p ↦ rw p h ]

  pub count-no_assignments_from :
      (members : List Text) (a : List (Text × List A))
      → count tp (f []) ≡ 0
      → count tp (assigned f a) ≡ 0
      → ((m : Text) → count tp (f (or_empty (find a m))) ≡ 0)
      → count tp (assigned f (no_assignments members a)) ≡ 0
  unfolding no_assignments
  count-no_assignments_from [] a z e h = e
  count-no_assignments_from (m ∷ members) a z e h =
      let same = count-put a m [] 0 z (omega (arith, z, h m)) in
      count-no_assignments_from members (put a m []) z (omega (arith, same, e))
        (λ j. ap (λ o. count tp (f (or_empty o))) (find-put a m j []) ∙ empty_or a m j z (h j))

pub count-no_assignments {ℓ} :
    {A : Type ℓ} (tp : TopicPartition) (f : List A → List TopicPartition) (members : List Text)
    → count tp (f []) ≡ 0
    → count tp (assigned f (no_assignments members [])) ≡ 0
unfolding assigned find count
count-no_assignments tp f members z = count-no_assignments_from tp f members [] z refl (λ m. z)

pub count_none : (tp : TopicPartition) → count tp [] ≡ 0
unfolding count
count_none tp = refl

tag-append : (t : Text) (ps qs : List ℕ) → tag t (ps ++ qs) ≡ tag t ps ++ tag t qs
unfolding tag
tag-append t [] qs = refl
tag-append t (p ∷ ps) qs = rw (tag-append t ps qs) refl

added :
    (tp x : TopicPartition) (t : Text) (ps : List ℕ) (r : List TopicPartition)
    → t ≡ x.topic
    → count tp (tag t (ps ++ x.partition ∷ []) ++ r) ≡ count tp (tag t ps ++ r) + count tp (x ∷ [])
unfolding tag
added tp x t ps r e =
    let one : count tp (tag t (x.partition ∷ [])) ≡ count tp (x ∷ []) =
      ap (λ u. count tp (record { topic = u; partition = x.partition } ∷ [])) e in
    let cut = ap (λ l. count tp l) (tag-append t ps (x.partition ∷ [])) in
    omega (
      arith,
      one,
      cut,
      count-append tp (tag t ps) (tag t (x.partition ∷ [])),
      count-append tp (tag t (ps ++ x.partition ∷ [])) r,
      count-append tp (tag t ps) r,
    )

pub count-tag_append :
    (tp : TopicPartition) (t : Text) (ps qs : List ℕ)
    → count tp (tag t (ps ++ qs)) ≡ count tp (tag t ps) + count tp (tag t qs)
count-tag_append tp t ps qs = rw (tag-append t ps qs) (count-append tp (tag t ps) (tag t qs))

pub count-given :
    (tp x : TopicPartition) (l : List PartitionAssignment)
    → count tp (given (add_partition x l)) ≡ count tp (given l) + count tp (x ∷ [])
unfolding given add_partition tag
count-given tp x [] = omega (arith, count-append tp (x ∷ []) [], count_none tp)
count-given tp x (a ∷ l) = elim (Bool-cases (list_eq.beq a.topic x.topic)) [
  | inl p ↦ rw p (added tp x a.topic a.partitions (given l) ((list_eq.beq_iff a.topic x.topic).0 p))
  | inr p ↦ rw p (
      kept tp (tag a.topic a.partitions) (given l) (given (add_partition x l)) (count tp (x ∷ []))
        (count-given tp x l))
]

pub given_none : (tp : TopicPartition) → count tp (given []) ≡ 0
unfolding given count
given_none tp = refl

pub given-append :
    (tp : TopicPartition) (l : List PartitionAssignment) (x : PartitionAssignment)
    → count tp (given (l ++ x ∷ [])) ≡ count tp (given l) + count tp (tag x.topic x.partitions)
unfolding given
given-append tp [] x = omega (arith, count-append tp (tag x.topic x.partitions) [], count_none tp)
given-append tp (a ∷ l) x =
    kept tp (tag a.topic a.partitions) (given l) (given (l ++ x ∷ []))
      (count tp (tag x.topic x.partitions)) (given-append tp l x)
