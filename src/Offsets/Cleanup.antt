-- ===== src/Offsets/Cleanup.antt =====
-- What `CleanupExpiredOffsets` (pkg/kafka/offset_manager.go) does to offsets that have no metadata.
use portask.Prelude.{Option-cases, inl, inr, ℕ, ◌<◌, ◌≡◌, refl, ap, ◌∙◌, List, lt→ltb}
use portask.Prelude.Maps.{nat_eq, list_eq, find, put, find-remove_self}
use portask.Offsets.Groups.{delete_group-some, delete_group-none}
use portask.Offsets.{
  failed, group_not_found, commit_at, fetch_group, fetch_at, OffsetManager, commit_offset,
  fetch_offset, delete_group, OffsetManagerWithMetadata, new_offset_manager_with_metadata,
  commit_offset_with_metadata, clean_partitions, keep_topic, clean_topics, keep_group, clean_groups,
  cleanup_expired_offsets,
}

-- A commit with metadata on a new manager, and a later commit of the same group without.
abbrev pub two_commits :
    ℕ → List ℕ → (List ℕ × (ℕ × ℕ)) → List ℕ → (List ℕ × (ℕ × ℕ)) → OffsetManagerWithMetadata
unfolding commit_offset commit_offset_with_metadata new_offset_manager_with_metadata
two_commits now group (topic, (partition, offset)) text (topic', (partition', offset')) =
    let omm =
      commit_offset_with_metadata now group topic partition offset text
        new_offset_manager_with_metadata in
    record omm { manager = commit_offset group topic' partition' offset' omm.manager }

fetch-deleted :
    (om : OffsetManager) (group topic : List ℕ) (partition : ℕ)
    → fetch_offset group topic partition (delete_group group om).1 ≡ failed group_not_found
unfolding fetch_offset fetch_at fetch_group
fetch-deleted om group topic partition = elim (Option-cases (find om.offsets group)) [
  | inl e ↦
      ap (λ m. fetch_group (find m group) topic partition) (delete_group-none om group e)
      ∙ ap (λ o. fetch_group o topic partition) e
  | inr (l, e) ↦
      ap (λ m. fetch_group (find m group) topic partition) (delete_group-some om group l e)
      ∙ ap (λ o. fetch_group o topic partition) (find-remove_self om.offsets group)
]

-- A cleanup whose cutoff is past the only commit with metadata of a group drops the whole group:
-- `FetchOffset` of an offset that was committed after it without metadata fails.
pub cleanup_drops_group :
    (now cutoff : ℕ) (group topic topic' text : List ℕ) (partition offset partition' offset' : ℕ)
    → now < cutoff
    → let omm =
        two_commits now group (topic, (partition, offset)) text (topic', (partition', offset')) in
      let (cleaned, omm') = cleanup_expired_offsets cutoff omm in
      (cleaned ≡ 1) × (fetch_offset group topic' partition' omm'.manager ≡ failed group_not_found)
unfolding cleanup_expired_offsets clean_groups clean_topics clean_partitions keep_topic keep_group
    commit_offset_with_metadata new_offset_manager_with_metadata commit_at put find two_commits
cleanup_drops_group now cutoff group topic topic' text partition offset partition' offset' h =
    let omm =
      two_commits now group (topic, (partition, offset)) text (topic', (partition', offset')) in
    rw (lt→ltb now cutoff h) (refl, fetch-deleted omm.manager group topic' partition')
