-- ===== src/Groups/Classic.antt =====
-- `ConsumerGroupCoordinator` of pkg/kafka/consumer_groups.go, with its default strategy. The map of
-- groups is its state; a call takes the time as an argument, and gives the error that it returns,
-- `none` for nil, and the new groups.
use portask.Prelude.{
  ℕ, ◌-◌, ◌*◌, ◌^◌, ◌==◌, Bool, true, false, if◌then◌else◌, ltb, Option, none, some, List, [], ◌∷◌,
}
use portask.Prelude.Maps.{nat_eq, list_eq, find, put, remove}
use portask.Txn.Producer.{TopicPartition, partition_eq}
use portask.Groups.{
  Text, GroupState, preparing_rebalance, stable, empty, GroupMember, Members, ConsumerGroup,
  next_generation,
}
use portask.Groups.Assign.{round_robin_assignor}

abbrev pub Groups : Type 0
Groups = List (Text × ConsumerGroup)

pub data CoordinatorError : Type 0 where
  group_not_found invalid_generation member_not_found not_stable failed_to_assign : CoordinatorError

abbrev pub Outcome : Type 0
Outcome = Option CoordinatorError × Groups

-- What a client asks of `JoinGroup`.
pub record JoinCall : Type 0 where
  pub member_id : Text
  pub client_id : Text
  pub protocol_type : Text
  pub session_timeout : ℕ
  pub rebalance_timeout : ℕ

unfoldable pub group_or_new : Text → JoinCall → ℕ → Option ConsumerGroup → ConsumerGroup
group_or_new id j now (some g) = g
group_or_new id j now none = record {
  id = id;
  members = [];
  state = empty;
  protocol = j.protocol_type;
  leader = [];
  generation = 0;
  assignments = [];
  offsets = [];
  session_timeout = j.session_timeout;
  rebalance_timeout = j.rebalance_timeout;
  created_at = now;
  last_heartbeat = 0;
}

-- The member's id, or the one that is generated for an empty one.
abbrev pub given_id : Text → Text → Text
given_id generated [] = generated
given_id generated (x ∷ id) = x ∷ id

unfoldable pub with_joined : JoinCall → Text → ℕ → ConsumerGroup → ConsumerGroup
with_joined j id now g = record g {
  members = put g.members id (record {
    id = id;
    client_id = j.client_id;
    client_host = [];
    session_timeout = j.session_timeout;
    rebalance_timeout = j.rebalance_timeout;
    metadata = [];
    joined_at = now;
    last_heartbeat = now;
  });
  state = preparing_rebalance;
  generation = next_generation g.generation;
}

-- `JoinGroup`: the group, the member's id and the groups.
unfoldable pub join_group : Text → JoinCall → Text → ℕ → Groups → ConsumerGroup × Text × Groups
join_group group_id j generated now groups =
    let id = given_id generated j.member_id in
    let g = with_joined j id now (group_or_new group_id j now (find groups group_id)) in
    (g, id, put groups group_id g)

-- A call on a group that exists.
abbrev pub on_group : Option ConsumerGroup → Groups → (ConsumerGroup → Outcome) → Outcome
on_group none groups call = (some group_not_found, groups)
on_group (some g) groups call = call g

-- `SyncGroup`
unfoldable pub sync_group : Text → ℕ → List (Text × List TopicPartition) → Groups → Outcome
sync_group group_id generation assignments groups = on_group (find groups group_id) groups (λ g.
    if g.generation == generation
    then (none, put groups group_id (record g { assignments = assignments; state = stable }))
    else (some invalid_generation, groups))

abbrev pub on_member : Option GroupMember → Groups → (GroupMember → Outcome) → Outcome
on_member none groups call = (some member_not_found, groups)
on_member (some m) groups call = call m

-- `Heartbeat`
unfoldable pub heartbeat : Text → Text → ℕ → ℕ → Groups → Outcome
heartbeat group_id member_id generation now groups = on_group (find groups group_id) groups (λ g.
    on_member (find g.members member_id) groups (λ m.
      if g.generation == generation
      then (
        none,
        put groups group_id (record g {
          members = put g.members member_id (record m { last_heartbeat = now });
          last_heartbeat = now;
        }),
      )
      else (some invalid_generation, groups)))

-- The group that has lost members.
unfoldable pub with_members : Members → ConsumerGroup → ConsumerGroup
with_members [] g = record g { members = []; state = empty }
with_members (m ∷ members) g = record g {
  members = m ∷ members;
  state = preparing_rebalance;
  generation = next_generation g.generation;
}

-- `LeaveGroup`
unfoldable pub leave_group : Text → Text → Groups → Outcome
leave_group group_id member_id groups =
    on_group (find groups group_id) groups
      (λ g. (none, put groups group_id (with_members (remove g.members member_id) g)))

unfoldable pub put_offsets :
    List (TopicPartition × ℕ) → List (TopicPartition × ℕ) → List (TopicPartition × ℕ)
put_offsets [] offsets = offsets
put_offsets ((tp, offset) ∷ commits) offsets = put_offsets commits (put offsets tp offset)

-- `CommitOffset`
unfoldable pub commit_offset : Text → List (TopicPartition × ℕ) → Groups → Outcome
commit_offset group_id commits groups =
    on_group (find groups group_id) groups
      (λ g. (none, put groups group_id (record g { offsets = put_offsets commits g.offsets })))

-- An offset, or -1 in the bits of an int64.
abbrev pub or_unknown : Option ℕ → ℕ
or_unknown none = 2 ^ 64 - 1
or_unknown (some offset) = offset

unfoldable pub offsets_of :
    List TopicPartition
    → List (TopicPartition × ℕ)
    → List (TopicPartition × ℕ)
    → List (TopicPartition × ℕ)
offsets_of [] offsets result = result
offsets_of (tp ∷ tps) offsets result =
    offsets_of tps offsets (put result tp (or_unknown (find offsets tp)))

abbrev pub fetched : Option ConsumerGroup → List TopicPartition → Option (List (TopicPartition × ℕ))
fetched none tps = none
fetched (some g) tps = some (offsets_of tps g.offsets [])

-- `FetchOffsets`; `none` is the error that the group is not found.
unfoldable pub fetch_offsets :
    Text → List TopicPartition → Groups → Option (List (TopicPartition × ℕ))
fetch_offsets group_id tps groups = fetched (find groups group_id) tps

abbrev pub is_stable_state : GroupState → Bool
is_stable_state stable = true
is_stable_state s = false

unfoldable pub keys : Members → List Text
keys [] = []
keys ((id, m) ∷ members) = id ∷ keys members

-- The group with new assignments; without any, it is left in the rebalance.
abbrev pub reassigned :
    Option (List (Text × List TopicPartition)) → Text → ConsumerGroup → Groups → Outcome
reassigned none group_id g groups = (
  some failed_to_assign,
  put groups group_id
      (record g { generation = next_generation g.generation; state = preparing_rebalance }),
)
reassigned (some assignments) group_id g groups = (
  none,
  put groups group_id (record g {
    generation = next_generation g.generation;
    assignments = assignments;
    state = stable;
  }),
)

abbrev pub if_stable : Bool → Outcome → Groups → Outcome
if_stable true outcome groups = outcome
if_stable false outcome groups = (some not_stable, groups)

abbrev pub rebalance : Text → List (Text × List ℕ) → Groups → ConsumerGroup → Outcome
rebalance group_id topics groups g =
    if_stable (is_stable_state g.state)
      (reassigned (round_robin_assignor (keys g.members) topics) group_id g groups) groups

-- `StartRebalance`
unfoldable pub start_rebalance : Text → List (Text × List ℕ) → Groups → Outcome
start_rebalance group_id topics groups =
    on_group (find groups group_id) groups (rebalance group_id topics groups)

-- The members of `CleanupExpiredGroups` that stay, by the timeout of the group.
unfoldable pub live_members : ℕ → ℕ → Members → Members
live_members now timeout [] = []
live_members now timeout ((id, m) ∷ members) =
    let rest = live_members now timeout members in
    if ltb timeout (now - m.last_heartbeat) then rest else (id, m) ∷ rest

unfoldable pub any_expired : ℕ → ℕ → Members → Bool
any_expired now timeout [] = false
any_expired now timeout ((id, m) ∷ members) =
    if ltb timeout (now - m.last_heartbeat) then true else any_expired now timeout members

unfoldable pub cleaned : ℕ → ConsumerGroup → ConsumerGroup
cleaned now g =
    if any_expired now g.session_timeout g.members
    then with_members (live_members now g.session_timeout g.members) g
    else g

abbrev pub no_members : Members → Bool
no_members [] = true
no_members (m ∷ members) = false

-- `CleanupExpiredGroups`; a group that has no heartbeat yet has the time 0.
unfoldable pub cleanup_expired_groups : ℕ → Groups → Groups
cleanup_expired_groups now [] = []
cleanup_expired_groups now ((id, g) ∷ groups) =
    let rest = cleanup_expired_groups now groups in
    let h = cleaned now g in
    if no_members h.members
    then if ltb (5 * 60 * 1000000000) (now - h.last_heartbeat) then rest else (id, h) ∷ rest
    else (id, h) ∷ rest
