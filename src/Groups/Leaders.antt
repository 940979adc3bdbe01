-- ===== src/Groups/Leaders.antt =====
-- What holds of every group of the coordinator between two calls.
use portask.Prelude.{
  ℕ, ◌≡◌, ◌≢◌, refl, sym, ap, ◌∙◌, subst, inl, inr, Bool, true, false, false≢true, Bool-cases,
  Option, none, some, List, [], ◌∷◌,
}
use portask.Prelude.Maps.{
  nat_eq, list_eq, beq_list, beq_refl, find, put, remove, find-put, find-put_self, find-remove,
}
use portask.Groups.{
  Text, GroupState, completing_rebalance, empty, GroupMember, Members, ConsumerGroup,
}
use portask.Groups.Coordinator.{
  Join, add_member, first_leader, trigger_rebalance, is_stable, joined_group, store_assignments,
  store_one, synced_group, some_assignment, after_leave, left_group, remove_all, leader_missing,
  is_absent, after_expiry,
}

-- A text is a key of the members.
abbrev pub Known : Option GroupMember → Type 0
Known none = ⊥
Known (some m) = Unit {0}

-- A group without members is empty, has no leader and starts again; otherwise its leader is one of
-- its members and its state is one of a rebalance or stable.
pub data GroupOk (g : ConsumerGroup) : Type 0 where
  vacant : g.members ≡ [] → g.state ≡ empty → g.leader ≡ [] → g.generation ≡ 0 → GroupOk g
  led : Known (find g.members g.leader) → g.state ≢ empty → GroupOk g

put-Known :
    (members : Members) (id leader : Text) (m : GroupMember)
    → Known (find members leader)
    → Known (find (put members id m) leader)
put-Known members id leader m k = elim (Bool-cases (list_eq.beq id leader)) [
  | inl p ↦ rw (find-put members id leader m, p) tt
  | inr p ↦ rw (find-put members id leader m, p) k
]

put_self-Known :
    (members : Members) (id : Text) (m : GroupMember) → Known (find (put members id m) id)
put_self-Known members id m = rw (find-put_self members id m) tt

first_leader-led :
    (members : Members) (id leader : Text)
    → Known (find members leader)
    → first_leader members id leader ≡ leader
unfolding find
first_leader-led [] id leader k = absurd k
first_leader-led (m ∷ members) id leader k = refl

none-Known : {o : Option GroupMember} → o ≡ none → Known o → ⊥
none-Known e k = subst Known e k

add_member-Known :
    (j : Join) (id : Text) (now : ℕ) (o : Option GroupMember) (g : ConsumerGroup)
    → find g.members id ≡ o
    → GroupOk g
    → Known (find (add_member j id now o g).members (add_member j id now o g).leader)
unfolding add_member find
add_member-Known j id now none g e (vacant m s l n) = rw m (put_self-Known [] id _)
add_member-Known j id now none g e (led k s) =
    rw (first_leader-led g.members id g.leader k) (put-Known g.members id g.leader _ k)
add_member-Known j id now (some x) g e (vacant m s l n) =
    absurd (none-Known (sym e ∙ ap (λ l. find l id) m) tt)
add_member-Known j id now (some x) g e (led k s) = put-Known g.members id g.leader _ k

abbrev is_empty : GroupState → Bool
is_empty empty = true
is_empty s = false

busy : {s : GroupState} → is_empty s ≡ false → s ≢ empty
busy e f = false≢true (sym e ∙ ap is_empty f)

trigger_rebalance-Ok :
    (g : ConsumerGroup)
    → Known (find g.members g.leader)
    → GroupOk (record (trigger_rebalance g) { state = completing_rebalance })
unfolding trigger_rebalance
trigger_rebalance-Ok g k = elim (Bool-cases (is_stable g.state)) [
  | inl p ↦ led (rw p k) (busy refl)
  | inr p ↦ led (rw p k) (busy refl)
]

store_assignments-Known :
    (a : List (Text × List ℕ)) (members : Members) (leader : Text)
    → Known (find members leader)
    → Known (find (store_assignments a members) leader)
unfolding store_assignments
store_assignments-Known [] members leader k = k
store_assignments-Known ((id, assignment) ∷ a) members leader k =
    store_assignments-Known a (store_one members id assignment (find members id)) leader
      (stored (find members id))
  where
    stored : (o : Option GroupMember) → Known (find (store_one members id assignment o) leader)
    stored none = k
    stored (some m) = put-Known members id leader _ k

pub synced_group-Ok :
    (member_id : Text) (a : List (Text × List ℕ)) (now : ℕ) (g : ConsumerGroup)
    → Known (find g.members member_id)
    → GroupOk g
    → GroupOk (synced_group member_id a now g)
unfolding synced_group
synced_group-Ok member_id a now g k h = elim (Bool-cases (list_eq.beq member_id g.leader)) [
  | inr p ↦ rw p h
  | inl p ↦ elim (Bool-cases (some_assignment a)) [
    | inr q ↦ rw (p, q) h
    | inl q ↦
        let known =
          store_assignments-Known a g.members g.leader
            (subst (λ i. Known (find g.members i)) ((list_eq.beq_iff member_id g.leader).0 p) k) in
        rw (p, q) (led known (busy refl))
  ]
]

after_leave-Ok :
    (lost : Members → Bool) (rest : Members) (g : ConsumerGroup)
    → (lost rest ≡ false → Known (find rest g.leader))
    → GroupOk (after_leave lost rest g)
unfolding after_leave find
after_leave-Ok lost [] g h = vacant refl refl refl refl
after_leave-Ok lost ((id, m) ∷ rest) g h = elim (Bool-cases (lost ((id, m) ∷ rest))) [
  | inl p ↦ led (rw (p, beq_refl id) tt) (busy refl)
  | inr p ↦ led (rw p (h p)) (busy refl)
]

-- `beat`: the member's record with another heartbeat.
pub beat-Ok :
    (member_id : Text) (m : GroupMember) (g : ConsumerGroup)
    → Known (find g.members member_id)
    → GroupOk g
    → GroupOk (record g { members = put g.members member_id m })
unfolding find
beat-Ok member_id m g k (vacant e s l n) = absurd (none-Known (ap (λ x. find x member_id) e) k)
beat-Ok member_id m g k (led known s) = led (put-Known g.members member_id g.leader m known) s

pub joined_group-Ok :
    (j : Join) (id : Text) (now : ℕ) (g : ConsumerGroup)
    → GroupOk g
    → GroupOk (record (joined_group j id now g) { state = completing_rebalance })
unfolding joined_group
joined_group-Ok j id now g h =
    let o = find g.members id in
    trigger_rebalance-Ok (add_member j id now o g) (add_member-Known j id now o g refl h)

remove-Known :
    (members : Members) (id leader : Text)
    → Known (find members leader)
    → list_eq.beq id leader ≡ false
    → Known (find (remove members id) leader)
remove-Known members id leader k p = rw (find-remove members id leader, p) k

pub left_group-Ok :
    (member_id : Text) (g : ConsumerGroup) → GroupOk g → GroupOk (left_group member_id g)
unfolding left_group after_leave remove
left_group-Ok member_id g (vacant e s l n) =
    let lost : Members → Bool = λ members. beq_list member_id g.leader in
    subst (λ r. GroupOk (after_leave lost r g)) (sym (ap (λ m. remove m member_id) e))
      (vacant refl refl refl refl)
left_group-Ok member_id g (led k s) =
    after_leave-Ok (λ members. beq_list member_id g.leader) (remove g.members member_id) g
      (remove-Known g.members member_id g.leader k)

present : (o : Option GroupMember) → is_absent o ≡ false → Known o
present none e = absurd (false≢true (sym e))
present (some m) e = tt

leader_missing-Known :
    (leader : Text) (members : Members)
    → leader_missing leader members ≡ false
    → Known (find members leader)
leader_missing-Known [] members e = absurd (false≢true (sym e))
leader_missing-Known (x ∷ leader) members e = present (find members (x ∷ leader)) e

pub after_expiry-Ok :
    (ids : List Text) (g : ConsumerGroup) → GroupOk g → GroupOk (after_expiry ids g)
after_expiry-Ok [] g h = h
after_expiry-Ok (id ∷ ids) g h =
    let rest = remove_all (id ∷ ids) g.members in
    after_leave-Ok (leader_missing g.leader) rest g (leader_missing-Known g.leader rest)
