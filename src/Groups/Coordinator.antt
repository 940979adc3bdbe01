-- ===== src/Groups/Coordinator.antt =====
-- `GroupCoordinator` of pkg/kafka/group_coordinator.go. The map of groups is the coordinator's
-- state; a call takes the time as an argument, and gives its reply and the new groups.
use portask.Prelude.{
  ℕ, ◌-◌, ◌==◌, Bool, true, false, if◌then◌else◌, ltb, Option, none, some, List, [], ◌∷◌, map,
}
use portask.Prelude.Maps.{nat_eq, list_eq, beq_list, find, put, remove}
use portask.Groups.{
  Text, GroupState, preparing_rebalance, completing_rebalance, stable, empty, GroupMember, Members,
  ConsumerGroup, next_generation,
}

abbrev pub Groups : Type 0
Groups = List (Text × ConsumerGroup)

pub data GroupError : Type 0 where
  group_not_found generation_mismatch member_not_found : GroupError

pub data Reply (A : Type 0) : Type 0 where
  ok : A → Reply A
  failed : GroupError → Reply A

-- `NewGroupCoordinator`
unfoldable pub new_group_coordinator : Groups
new_group_coordinator = []

unfoldable pub new_group : Text → ℕ → ConsumerGroup
new_group id now = record {
  id = id;
  members = [];
  state = empty;
  protocol = [];
  leader = [];
  generation = 0;
  assignments = [];
  offsets = [];
  session_timeout = 0;
  rebalance_timeout = 0;
  created_at = now;
  last_heartbeat = 0;
}

unfoldable pub or_new_group : Text → ℕ → Option ConsumerGroup → ConsumerGroup
or_new_group id now none = new_group id now
or_new_group id now (some g) = g

-- `getOrCreateGroup`: the group; the map gets it when the call ends.
unfoldable pub get_or_create_group : Text → ℕ → Groups → ConsumerGroup
get_or_create_group id now groups = or_new_group id now (find groups id)

-- What a client asks of `JoinGroup`.
pub record Join : Type 0 where
  pub member_id : Text
  pub client_id : Text
  pub client_host : Text
  pub session_timeout : ℕ
  pub rebalance_timeout : ℕ
  pub metadata : List ℕ

-- The member's id, or the one that is generated for an empty one.
abbrev pub id_or : Text → Text → Text
id_or generated [] = generated
id_or generated (x ∷ id) = x ∷ id

abbrev pub first_leader : Members → Text → Text → Text
first_leader [] id leader = id
first_leader (m ∷ members) id leader = leader

-- Update the member that exists, or add a new one.
unfoldable pub add_member : Join → Text → ℕ → Option GroupMember → ConsumerGroup → ConsumerGroup
add_member j id now (some existing) g = record g {
  members = put g.members id (record existing {
    last_heartbeat = now;
    session_timeout = j.session_timeout;
    rebalance_timeout = j.rebalance_timeout;
    metadata = j.metadata;
  });
}
add_member j id now none g = record g {
  leader = first_leader g.members id g.leader;
  members = put g.members id (record {
    id = id;
    client_id = j.client_id;
    client_host = j.client_host;
    session_timeout = j.session_timeout;
    rebalance_timeout = j.rebalance_timeout;
    metadata = j.metadata;
    joined_at = now;
    last_heartbeat = now;
  });
}

abbrev pub is_stable : GroupState → Bool
is_stable stable = true
is_stable s = false

unfoldable pub trigger_rebalance : ConsumerGroup → ConsumerGroup
trigger_rebalance g =
    if is_stable g.state
    then record g { state = preparing_rebalance; generation = next_generation g.generation }
    else g

pub record JoinGroupResponse : Type 0 where
  pub generation_id : ℕ
  pub protocol_name : Text
  pub leader_id : Text
  pub member_id : Text
  pub members : List (Text × List ℕ)

unfoldable pub join_response : Text → ConsumerGroup → JoinGroupResponse
join_response id g = record {
  generation_id = g.generation;
  protocol_name = g.protocol;
  leader_id = g.leader;
  member_id = id;
  members = if beq_list id g.leader then map (λ m. (m.0, m.1.metadata)) g.members else [];
}

unfoldable pub joined_group : Join → Text → ℕ → ConsumerGroup → ConsumerGroup
joined_group j id now g = trigger_rebalance (add_member j id now (find g.members id) g)

-- `JoinGroup`; `generated` is the id that `fmt` prints for a member without one.
unfoldable pub join_group : Text → Join → Text → ℕ → Groups → JoinGroupResponse × Groups
join_group group_id j generated now groups =
    let id = id_or generated j.member_id in
    let g = joined_group j id now (get_or_create_group group_id now groups) in
    (join_response id g, put groups group_id (record g { state = completing_rebalance }))

abbrev pub store_one : Members → Text → List ℕ → Option GroupMember → Members
store_one members id assignment none = members
store_one members id assignment (some m) = put members id (record m { metadata = assignment })

-- The leader's assignments, as metadata of the members that exist.
unfoldable pub store_assignments : List (Text × List ℕ) → Members → Members
store_assignments [] members = members
store_assignments ((id, assignment) ∷ rest) members =
    store_assignments rest (store_one members id assignment (find members id))

abbrev pub some_assignment : List (Text × List ℕ) → Bool
some_assignment [] = false
some_assignment (a ∷ l) = true

unfoldable pub synced_group : Text → List (Text × List ℕ) → ℕ → ConsumerGroup → ConsumerGroup
synced_group member_id assignments now g =
    if beq_list member_id g.leader
    then if some_assignment assignments
      then record g {
        members = store_assignments assignments g.members;
        state = stable;
        last_heartbeat = now;
      }
      else g
    else g

-- `member.Metadata`, through the pointer that the group shares.
abbrev pub metadata_of : Option GroupMember → List ℕ
metadata_of none = []
metadata_of (some m) = m.metadata

-- A call of the member of a group, after the checks of the generation and the member.
abbrev pub with_member :
    {A : Type 0} → Option GroupMember → Groups → (GroupMember → Reply A × Groups) → Reply A × Groups
with_member none groups call = (failed member_not_found, groups)
with_member (some m) groups call = call m

unfoldable pub checked :
    {A : Type 0}
    → Option ConsumerGroup
    → Text
    → ℕ
    → Groups
    → (ConsumerGroup → GroupMember → Reply A × Groups)
    → Reply A × Groups
checked none member_id generation groups call = (failed group_not_found, groups)
checked (some g) member_id generation groups call =
    if g.generation == generation
    then with_member (find g.members member_id) groups (call g)
    else (failed generation_mismatch, groups)

-- `SyncGroup`
unfoldable pub sync_group :
    Text → Text → ℕ → List (Text × List ℕ) → ℕ → Groups → Reply (List ℕ) × Groups
sync_group group_id member_id generation assignments now groups =
    checked (find groups group_id) member_id generation groups (λ g m.
      let h = synced_group member_id assignments now g in
      (ok (metadata_of (find h.members member_id)), put groups group_id h))

-- `Heartbeat`
unfoldable pub heartbeat : Text → Text → ℕ → ℕ → Groups → Reply Unit × Groups
heartbeat group_id member_id generation now groups =
    checked (find groups group_id) member_id generation groups (λ g m. (
      ok tt,
      put groups group_id
          (record g { members = put g.members member_id (record m { last_heartbeat = now }) }),
    ))

-- Elect a new leader, the first in the order of the map.
abbrev pub elect : Bool → Members → Text → Text
elect true ((id, m) ∷ members) leader = id
elect needed members leader = leader

-- The group that some members have left, where `lost_leader` tells of its leader.
unfoldable pub after_leave : (Members → Bool) → Members → ConsumerGroup → ConsumerGroup
after_leave lost_leader [] g = record g { members = []; state = empty; leader = []; generation = 0 }
after_leave lost_leader (m ∷ members) g = record g {
  members = m ∷ members;
  state = preparing_rebalance;
  generation = next_generation g.generation;
  leader = elect (lost_leader (m ∷ members)) (m ∷ members) g.leader;
}

unfoldable pub left_group : Text → ConsumerGroup → ConsumerGroup
left_group member_id g =
    after_leave (λ members. beq_list member_id g.leader) (remove g.members member_id) g

abbrev pub left_found : Option ConsumerGroup → Text → Text → Groups → Reply Unit × Groups
left_found none group_id member_id groups = (failed group_not_found, groups)
left_found (some g) group_id member_id groups =
    (ok tt, put groups group_id (left_group member_id g))

-- `LeaveGroup`
unfoldable pub leave_group : Text → Text → Groups → Reply Unit × Groups
leave_group group_id member_id groups = left_found (find groups group_id) group_id member_id groups

-- The members whose last heartbeat is too long ago.
unfoldable pub expired_members : ℕ → Members → List Text
expired_members now [] = []
expired_members now ((id, m) ∷ members) =
    let rest = expired_members now members in
    if ltb m.session_timeout (now - m.last_heartbeat) then id ∷ rest else rest

unfoldable pub remove_all : List Text → Members → Members
remove_all [] members = members
remove_all (id ∷ ids) members = remove_all ids (remove members id)

abbrev pub is_absent : Option GroupMember → Bool
is_absent none = true
is_absent (some m) = false

-- No leader is named, or it is no member.
abbrev pub leader_missing : Text → Members → Bool
leader_missing [] members = true
leader_missing (x ∷ leader) members = is_absent (find members (x ∷ leader))

abbrev pub after_expiry : List Text → ConsumerGroup → ConsumerGroup
after_expiry [] g = g
after_expiry (id ∷ ids) g =
    after_leave (leader_missing g.leader) (remove_all (id ∷ ids) g.members) g

-- A tick of `checkHeartbeats`.
unfoldable pub check_heartbeats : ℕ → Groups → Groups
check_heartbeats now [] = []
check_heartbeats now ((group_id, g) ∷ groups) =
    (group_id, after_expiry (expired_members now g.members) g) ∷ check_heartbeats now groups
