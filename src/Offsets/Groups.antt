-- ===== src/Offsets/Groups.antt =====
-- Commits and deletions of an `OffsetManager` (pkg/kafka/offset_manager.go) one after another,
-- against a function from group, topic and partition to the offset.
use portask.Prelude.{
  ap₂, Option-cases, ℕ, ◌≡◌, refl, sym, ap, ◌∙◌, ◌==◌, if◌then◌else◌, Bool-cases, inl, inr, Option,
  none, some, List, [], ◌∷◌, arith,
}
use portask.Prelude.Maps.{
  nat_eq, list_eq, beq_list, beq_list_iff, find, put, remove, find-put, find-remove,
}
use portask.Offsets.{
  GroupMap, or_empty, Fetched, found, failed, commit_at, fetch_partition, fetch_topic, fetch_group,
  fetch_at, OffsetManager, new_offset_manager, commit_offset, fetch_offset, delete_group,
}

pub data OffsetCall : Type 0 where
  commit : List ℕ → List ℕ → ℕ → ℕ → OffsetCall
  delete : List ℕ → OffsetCall

pub run_call : OffsetManager → OffsetCall → OffsetManager
run_call om (commit group topic partition offset) = commit_offset group topic partition offset om
run_call om (delete group) = (delete_group group om).1

pub run_calls : OffsetManager → List OffsetCall → OffsetManager
run_calls om [] = om
run_calls om (c ∷ cs) = run_calls (run_call om c) cs

abbrev pub OffsetView : Type 0
OffsetView = List ℕ → List ℕ → ℕ → Option ℕ

-- What a call does to the function.
unfoldable pub update : OffsetView → OffsetCall → OffsetView
update f (commit g t p offset) group topic partition =
    if beq_list g group
    then (if beq_list t topic
        then (if p == partition then some offset else f group topic partition)
        else f group topic partition)
    else f group topic partition
update f (delete g) group topic partition =
    if beq_list g group then none else f group topic partition

unfoldable pub updates : OffsetView → List OffsetCall → OffsetView
updates f [] = f
updates f (c ∷ cs) = updates (update f c) cs

-- The offset that a fetch finds.
abbrev pub offset_found : Fetched ℕ → Option ℕ
offset_found (found offset) = some offset
offset_found (failed e) = none

-- The offset by the empty maps that missing ones read as.
abbrev lookup3 : GroupMap ℕ → List ℕ → List ℕ → ℕ → Option ℕ
lookup3 m group topic partition = find (or_empty (find (or_empty (find m group)) topic)) partition

offset_found-fetch_partition : (o : Option ℕ) → offset_found (fetch_partition o) ≡ o
offset_found-fetch_partition none = refl
offset_found-fetch_partition (some v) = refl

offset_found-fetch_topic :
    (o : Option (List (ℕ × ℕ))) (partition : ℕ)
    → offset_found (fetch_topic o partition) ≡ find (or_empty o) partition
unfolding fetch_topic find
offset_found-fetch_topic none partition = refl
offset_found-fetch_topic (some l) partition = offset_found-fetch_partition (find l partition)

offset_found-fetch_group :
    (o : Option (List (List ℕ × List (ℕ × ℕ)))) (topic : List ℕ) (partition : ℕ)
    → offset_found (fetch_group o topic partition)
      ≡ find (or_empty (find (or_empty o) topic)) partition
unfolding fetch_group find
offset_found-fetch_group none topic partition = refl
offset_found-fetch_group (some l) topic partition =
    offset_found-fetch_topic (find l topic) partition

fetch_at-lookup3 :
    (m : GroupMap ℕ) (group topic : List ℕ) (partition : ℕ)
    → offset_found (fetch_at m group topic partition) ≡ lookup3 m group topic partition
unfolding fetch_at
fetch_at-lookup3 m group topic partition = offset_found-fetch_group (find m group) topic partition

-- A map of maps after a write of one entry.
find-put_nested :
    {A : Type 0} (m : List (List ℕ × List A)) (k j : List ℕ) (l : List A)
    → or_empty (find (put m k l) j) ≡ (if beq_list k j then l else or_empty (find m j))
find-put_nested m k j l = elim (Bool-cases (beq_list k j)) [
  | inl p ↦ ap or_empty (find-put m k j l) ∙ rw p refl
  | inr p ↦ ap or_empty (find-put m k j l) ∙ rw p refl
]

lookup3-commit_at :
    (m : GroupMap ℕ) (g t : List ℕ) (p v : ℕ) (group topic : List ℕ) (partition : ℕ)
    → lookup3 (commit_at m g t p v) group topic partition
      ≡ update (lookup3 m) (commit g t p v) group topic partition
unfolding commit_at update
lookup3-commit_at m g t p v group topic partition =
    let topics = or_empty (find m g) in
    let partitions = or_empty (find topics t) in
    ap (λ l. find (or_empty (find l topic)) partition)
      (find-put_nested m g group (put topics t (put partitions p v)))
    ∙ elim (Bool-cases (beq_list g group)) [
      | inr n ↦ rw n refl
      | inl e ↦ rw e (
          ap (λ l. find l partition) (find-put_nested topics t topic (put partitions p v))
          ∙ elim (Bool-cases (beq_list t topic)) [
            | inr n ↦ rw n (ap (λ g'. lookup3 m g' topic partition) ((beq_list_iff g group).0 e))
            | inl e' ↦ rw e' (
                find-put partitions p partition v
                ∙ ap₂ (λ g' t'. if p == partition then some v else lookup3 m g' t' partition)
                    ((beq_list_iff g group).0 e) ((beq_list_iff t topic).0 e'))
          ])
    ]

lookup3-remove :
    (m : GroupMap ℕ) (g group topic : List ℕ) (partition : ℕ)
    → lookup3 (remove m g) group topic partition
      ≡ update (lookup3 m) (delete g) group topic partition
unfolding update find
lookup3-remove m g group topic partition =
    ap (λ o. find (or_empty (find (or_empty o) topic)) partition) (find-remove m g group)
    ∙ elim (Bool-cases (beq_list g group)) [ inl e ↦ rw e refl | inr n ↦ rw n refl ]

-- The offsets that `FetchOffset` finds.
abbrev pub offsets_of : OffsetManager → OffsetView
offsets_of om group topic partition = offset_found (fetch_offset group topic partition om)

offsets_of-lookup3 :
    (om : OffsetManager) (group topic : List ℕ) (partition : ℕ)
    → offsets_of om group topic partition ≡ lookup3 om.offsets group topic partition
unfolding fetch_offset
offsets_of-lookup3 om group topic partition = fetch_at-lookup3 om.offsets group topic partition

pub delete_group-some :
    (om : OffsetManager) (g : List ℕ) (l : List (List ℕ × List (ℕ × ℕ)))
    → find om.offsets g ≡ some l
    → (delete_group g om).1.offsets ≡ remove om.offsets g
unfolding delete_group
delete_group-some om g l e = ground arith

pub delete_group-none :
    (om : OffsetManager) (g : List ℕ)
    → find om.offsets g ≡ none
    → (delete_group g om).1.offsets ≡ om.offsets
unfolding delete_group
delete_group-none om g e = ground arith

delete_group-offsets :
    (om : OffsetManager) (g group topic : List ℕ) (partition : ℕ)
    → lookup3 (delete_group g om).1.offsets group topic partition
      ≡ update (lookup3 om.offsets) (delete g) group topic partition
unfolding update find
delete_group-offsets om g group topic partition = elim (Option-cases (find om.offsets g)) [
  | inr (l, e) ↦
      ap (λ m. lookup3 m group topic partition) (delete_group-some om g l e)
      ∙ lookup3-remove om.offsets g group topic partition
  | inl e ↦
      ap (λ m. lookup3 m group topic partition) (delete_group-none om g e)
      ∙ elim (Bool-cases (beq_list g group)) [
        | inr n ↦ rw n refl
        | inl q ↦ rw q (
            ap (λ o. find (or_empty (find (or_empty o) topic)) partition)
              (ap (λ k. find om.offsets k) (sym ((beq_list_iff g group).0 q)) ∙ e))
      ]
]

run_call-lookup3 :
    (om : OffsetManager) (c : OffsetCall)
    → lookup3 (run_call om c).offsets ≡ update (lookup3 om.offsets) c
unfolding run_call commit_offset
run_call-lookup3 om (commit g t p v) =
    λ i group topic partition. lookup3-commit_at om.offsets g t p v group topic partition i
run_call-lookup3 om (delete g) =
    λ i group topic partition. delete_group-offsets om g group topic partition i

run_calls-lookup3 :
    (om : OffsetManager) (cs : List OffsetCall)
    → lookup3 (run_calls om cs).offsets ≡ updates (lookup3 om.offsets) cs
unfolding run_calls updates
run_calls-lookup3 om [] = refl
run_calls-lookup3 om (c ∷ cs) =
    run_calls-lookup3 (run_call om c) cs ∙ ap (λ f. updates f cs) (run_call-lookup3 om c)

-- After any commits and deletions of groups on a new `OffsetManager`, `FetchOffset` finds for every
-- group, topic and partition the offset that was committed last and whose group was not deleted
-- since, and fails where there is none.
pub fetch_offset-run_calls :
    (cs : List OffsetCall) (group topic : List ℕ) (partition : ℕ)
    → offset_found (fetch_offset group topic partition (run_calls new_offset_manager cs))
      ≡ updates (λ g t p. none) cs group topic partition
unfolding new_offset_manager find
fetch_offset-run_calls cs group topic partition =
    offsets_of-lookup3 (run_calls new_offset_manager cs) group topic partition
    ∙ ap (λ f. f group topic partition) (run_calls-lookup3 new_offset_manager cs)
