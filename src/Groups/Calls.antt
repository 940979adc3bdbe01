-- ===== src/Groups/Calls.antt =====
-- Any calls on the coordinator of pkg/kafka/group_coordinator.go, one after another.
use portask.Prelude.{ℕ, ◌==◌, ◌≡◌, refl, Bool-cases, inl, inr, Option, none, some, List, [], ◌∷◌}
use portask.Prelude.Maps.{nat_eq, list_eq, find, put}
use portask.Groups.{Text, GroupMember, ConsumerGroup}
use portask.Groups.Coordinator.{
  Groups, Reply, Join, new_group_coordinator, new_group, get_or_create_group, or_new_group, id_or,
  join_group, sync_group, checked, with_member, heartbeat, left_group, left_found, leave_group,
  expired_members, check_heartbeats,
}
use portask.Groups.Leaders.{
  GroupOk, vacant, Known, synced_group-Ok, beat-Ok, joined_group-Ok, left_group-Ok, after_expiry-Ok,
}

pub data Call : Type 0 where
  join : Text → Join → Text → ℕ → Call
  sync : Text → Text → ℕ → List (Text × List ℕ) → ℕ → Call
  beat : Text → Text → ℕ → ℕ → Call
  leave : Text → Text → Call
  tick : ℕ → Call

unfoldable pub run_call : Call → Groups → Groups
run_call (join group_id j generated now) groups = (join_group group_id j generated now groups).1
run_call (sync group_id member_id generation assignments now) groups =
    (sync_group group_id member_id generation assignments now groups).1
run_call (beat group_id member_id generation now) groups =
    (heartbeat group_id member_id generation now groups).1
run_call (leave group_id member_id) groups = (leave_group group_id member_id groups).1
run_call (tick now) groups = check_heartbeats now groups

unfoldable pub run_calls : List Call → Groups → Groups
run_calls [] groups = groups
run_calls (c ∷ calls) groups = run_calls calls (run_call c groups)

abbrev pub AllOk : Groups → Type 0
AllOk [] = Unit {0}
AllOk ((id, g) ∷ groups) = GroupOk g × AllOk groups

put-AllOk :
    (groups : Groups) (id : Text) (g : ConsumerGroup)
    → AllOk groups
    → GroupOk g
    → AllOk (put groups id g)
unfolding put
put-AllOk [] id g h k = (k, tt)
put-AllOk ((i, x) ∷ groups) id g (h, hs) k = elim (Bool-cases (list_eq.beq i id)) [
  | inl p ↦ rw p (k, hs)
  | inr p ↦ rw p (h, put-AllOk groups id g hs k)
]

FoundOk : Option ConsumerGroup → Type 0
FoundOk none = Unit {0}
FoundOk (some g) = GroupOk g

find-AllOk : (groups : Groups) (id : Text) → AllOk groups → FoundOk (find groups id)
unfolding find FoundOk
find-AllOk [] id h = tt
find-AllOk ((i, x) ∷ groups) id (h, hs) = elim (Bool-cases (list_eq.beq i id)) [
  | inl p ↦ rw p h
  | inr p ↦ rw p (find-AllOk groups id hs)
]

checked-AllOk :
    {A : Type 0} (o : Option ConsumerGroup) (member_id : Text) (generation : ℕ) (groups : Groups)
    (call : ConsumerGroup → GroupMember → Reply A × Groups)
    → FoundOk o
    → AllOk groups
    → ((g : ConsumerGroup) (m : GroupMember)
        → Known (find g.members member_id)
        → GroupOk g
        → AllOk (call g m).1)
    → AllOk (checked o member_id generation groups call).1
unfolding checked FoundOk
checked-AllOk none member_id generation groups call f h k = h
checked-AllOk (some g) member_id generation groups call f h k =
    elim (Bool-cases (g.generation == generation)) [
      | inl p ↦ rw p (go (find g.members member_id) refl)
      | inr p ↦ rw p h
    ]
  where
    go :
        (o : Option GroupMember)
        → find g.members member_id ≡ o
        → AllOk (with_member o groups (call g)).1
    go none e = h
    go (some m) e = k g m (rw e tt) f

left_found-AllOk :
    (o : Option ConsumerGroup) (group_id member_id : Text) (groups : Groups)
    → FoundOk o
    → AllOk groups
    → AllOk (left_found o group_id member_id groups).1
unfolding FoundOk
left_found-AllOk none group_id member_id groups f h = h
left_found-AllOk (some g) group_id member_id groups f h =
    put-AllOk groups group_id (left_group member_id g) h (left_group-Ok member_id g f)

or_new_group-Ok :
    (id : Text) (now : ℕ) (o : Option ConsumerGroup) → FoundOk o → GroupOk (or_new_group id now o)
unfolding or_new_group new_group FoundOk
or_new_group-Ok id now none f = vacant refl refl refl refl
or_new_group-Ok id now (some g) f = f

check_heartbeats-AllOk :
    (now : ℕ) (groups : Groups) → AllOk groups → AllOk (check_heartbeats now groups)
unfolding check_heartbeats
check_heartbeats-AllOk now [] h = tt
check_heartbeats-AllOk now ((id, g) ∷ groups) (h, hs) =
    (after_expiry-Ok (expired_members now g.members) g h, check_heartbeats-AllOk now groups hs)

run_call-AllOk : (c : Call) (groups : Groups) → AllOk groups → AllOk (run_call c groups)
unfolding run_call join_group sync_group heartbeat leave_group get_or_create_group
run_call-AllOk (join group_id j generated now) groups h =
    let id = id_or generated j.member_id in
    let g = get_or_create_group group_id now groups in
    put-AllOk groups group_id _ h (
      joined_group-Ok j id now g
        (or_new_group-Ok group_id now (find groups group_id) (find-AllOk groups group_id h)))
run_call-AllOk (sync group_id member_id generation assignments now) groups h =
    checked-AllOk (find groups group_id) member_id generation groups _
      (find-AllOk groups group_id h) h
      (λ g m k f. put-AllOk groups group_id _ h (synced_group-Ok member_id assignments now g k f))
run_call-AllOk (beat group_id member_id generation now) groups h =
    checked-AllOk (find groups group_id) member_id generation groups _
      (find-AllOk groups group_id h) h
      (λ g m k f. put-AllOk groups group_id _ h (beat-Ok member_id _ g k f))
run_call-AllOk (leave group_id member_id) groups h =
    left_found-AllOk (find groups group_id) group_id member_id groups (find-AllOk groups group_id h)
      h
run_call-AllOk (tick now) groups h = check_heartbeats-AllOk now groups h

run_calls_from :
    (calls : List Call) (groups : Groups) → AllOk groups → AllOk (run_calls calls groups)
unfolding run_calls
run_calls_from [] groups h = h
run_calls_from (c ∷ calls) groups h =
    run_calls_from calls (run_call c groups) (run_call-AllOk c groups h)

-- After any calls of `JoinGroup`, `SyncGroup`, `Heartbeat` and `LeaveGroup` on a new coordinator,
-- and any ticks of `checkHeartbeats` in between, every group without members is empty, with no leader
-- and generation 0, and every other group is led by one of its members and not empty.
pub run_calls-AllOk : (calls : List Call) → AllOk (run_calls calls new_group_coordinator)
unfolding new_group_coordinator
run_calls-AllOk calls = run_calls_from calls [] tt
