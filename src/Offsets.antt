-- ===== src/Offsets.antt =====
-- pkg/kafka/offset_manager.go: the offsets of consumer groups, with and without metadata. A text is
-- the list of its bytes, and an int32, an int64 or a time a number. A map that is nil is one that is
-- missing.
use portask.Prelude.{
  ℕ, ◌+◌, Bool, true, false, if◌then◌else◌, ltb, Option, none, some, List, [], ◌∷◌, map,
}
use portask.Prelude.Maps.{nat_eq, list_eq, find, put, remove}
mod Groups
mod Cleanup
mod Tests

-- `map[string]map[string]map[int32]V`: group, topic, partition.
abbrev pub GroupMap : Type 0 → Type 0
GroupMap V = List (List ℕ × List (List ℕ × List (ℕ × V)))

-- A missing map reads as an empty one.
abbrev pub or_empty : {A : Type 0} → Option (List A) → List A
or_empty none = []
or_empty (some l) = l

pub data OffsetError : Type 0 where
  group_not_found topic_not_found partition_not_found : OffsetError

pub data Fetched (V : Type 0) : Type 0 where
  found : V → Fetched V
  failed : OffsetError → Fetched V

module _ {V : Type 0} where
  -- The body of `CommitOffset`, and of `CommitOffsetWithMetadata` on its own map.
  unfoldable pub commit_at : GroupMap V → List ℕ → List ℕ → ℕ → V → GroupMap V
  commit_at m group topic partition v =
      let topics = or_empty (find m group) in
      let partitions = or_empty (find topics topic) in
      put m group (put topics topic (put partitions partition v))

  abbrev pub fetch_partition : Option V → Fetched V
  fetch_partition none = failed partition_not_found
  fetch_partition (some v) = found v

  unfoldable pub fetch_topic : Option (List (ℕ × V)) → ℕ → Fetched V
  fetch_topic none partition = failed topic_not_found
  fetch_topic (some partitions) partition = fetch_partition (find partitions partition)

  unfoldable pub fetch_group : Option (List (List ℕ × List (ℕ × V))) → List ℕ → ℕ → Fetched V
  fetch_group none topic partition = failed group_not_found
  fetch_group (some topics) topic partition = fetch_topic (find topics topic) partition

  -- The body of `FetchOffset`, and of `FetchOffsetMetadata` on its own map.
  unfoldable pub fetch_at : GroupMap V → List ℕ → List ℕ → ℕ → Fetched V
  fetch_at m group topic partition = fetch_group (find m group) topic partition

-- `OffsetManager`
pub record OffsetManager : Type 0 where
  pub offsets : GroupMap ℕ

unfoldable pub new_offset_manager : OffsetManager
new_offset_manager = record { offsets = [] }

-- `CommitOffset`, which never fails.
unfoldable pub commit_offset : List ℕ → List ℕ → ℕ → ℕ → OffsetManager → OffsetManager
commit_offset group topic partition offset om = record {
  offsets = commit_at om.offsets group topic partition offset;
}

-- `FetchOffset`
unfoldable pub fetch_offset : List ℕ → List ℕ → ℕ → OffsetManager → Fetched ℕ
fetch_offset group topic partition om = fetch_at om.offsets group topic partition

-- `FetchAllOffsets`
unfoldable pub fetch_all_offsets : List ℕ → OffsetManager → Option (List (List ℕ × List (ℕ × ℕ)))
fetch_all_offsets group om = find om.offsets group

-- `DeleteGroup`, and whether it succeeds.
unfoldable pub delete_group : List ℕ → OffsetManager → Bool × OffsetManager
delete_group group om = elim (find om.offsets group) [
  | none ↦ (false, om)
  | some topics ↦ (true, record { offsets = remove om.offsets group })
]

-- `ListGroups` and `GetGroupTopics`
unfoldable pub list_groups : OffsetManager → List (List ℕ)
list_groups om = map (λ entry. entry.0) om.offsets

unfoldable pub get_group_topics : List ℕ → OffsetManager → Option (List (List ℕ))
get_group_topics group om = elim (find om.offsets group) [
  | none ↦ none
  | some topics ↦ some (map (λ entry. entry.0) topics)
]

pub record OffsetMetadata : Type 0 where
  pub offset : ℕ
  pub metadata : List ℕ
  pub timestamp : ℕ

-- `OffsetManagerWithMetadata`
pub record OffsetManagerWithMetadata : Type 0 where
  pub manager : OffsetManager
  pub metadata : GroupMap OffsetMetadata

unfoldable pub new_offset_manager_with_metadata : OffsetManagerWithMetadata
new_offset_manager_with_metadata = record { manager = new_offset_manager; metadata = [] }

-- `CommitOffsetWithMetadata` at the time `now`.
unfoldable pub commit_offset_with_metadata :
    ℕ → List ℕ → List ℕ → ℕ → ℕ → List ℕ → OffsetManagerWithMetadata → OffsetManagerWithMetadata
commit_offset_with_metadata now group topic partition offset text omm = record {
  manager = commit_offset group topic partition offset omm.manager;
  metadata =
      commit_at omm.metadata group topic partition
        (record { offset = offset; metadata = text; timestamp = now });
}

-- `FetchOffsetMetadata`
unfoldable pub fetch_offset_metadata :
    List ℕ → List ℕ → ℕ → OffsetManagerWithMetadata → Fetched OffsetMetadata
fetch_offset_metadata group topic partition omm = fetch_at omm.metadata group topic partition

-- The loops of `CleanupExpiredOffsets`, each with the number of entries that it deletes.
unfoldable pub clean_partitions : ℕ → List (ℕ × OffsetMetadata) → ℕ × List (ℕ × OffsetMetadata)
clean_partitions cutoff [] = (0, [])
clean_partitions cutoff ((partition, meta) ∷ partitions) =
    let (cleaned, rest) = clean_partitions cutoff partitions in
    if ltb meta.timestamp cutoff then (cleaned + 1, rest) else (cleaned, (partition, meta) ∷ rest)

unfoldable pub keep_topic :
    List ℕ
    → List (ℕ × OffsetMetadata)
    → List (List ℕ × List (ℕ × OffsetMetadata))
    → List (List ℕ × List (ℕ × OffsetMetadata))
keep_topic topic [] rest = rest
keep_topic topic (p ∷ partitions) rest = (topic, p ∷ partitions) ∷ rest

unfoldable pub clean_topics :
    ℕ → List (List ℕ × List (ℕ × OffsetMetadata)) → ℕ × List (List ℕ × List (ℕ × OffsetMetadata))
clean_topics cutoff [] = (0, [])
clean_topics cutoff ((topic, partitions) ∷ topics) =
    let (cleaned, partitions') = clean_partitions cutoff partitions in
    let (cleaned', rest) = clean_topics cutoff topics in
    (cleaned + cleaned', keep_topic topic partitions' rest)

-- A group with no topic left goes from both maps.
unfoldable pub keep_group :
    List ℕ
    → List (List ℕ × List (ℕ × OffsetMetadata))
    → OffsetManagerWithMetadata
    → OffsetManagerWithMetadata
keep_group group [] omm = record omm { manager = (delete_group group omm.manager).1 }
keep_group group (t ∷ topics) omm = record omm { metadata = (group, t ∷ topics) ∷ omm.metadata }

unfoldable pub clean_groups :
    ℕ → GroupMap OffsetMetadata → OffsetManager → ℕ × OffsetManagerWithMetadata
clean_groups cutoff [] om = (0, record { manager = om; metadata = [] })
clean_groups cutoff ((group, topics) ∷ groups) om =
    let (cleaned, topics') = clean_topics cutoff topics in
    let (cleaned', rest) = clean_groups cutoff groups om in
    (cleaned + cleaned', keep_group group topics' rest)

-- `CleanupExpiredOffsets`, with `cutoff` for the time of the call less the retention.
unfoldable pub cleanup_expired_offsets :
    ℕ → OffsetManagerWithMetadata → ℕ × OffsetManagerWithMetadata
cleanup_expired_offsets cutoff omm = clean_groups cutoff omm.metadata omm.manager
