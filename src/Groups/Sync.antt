-- ===== src/Groups/Sync.antt =====
-- What `SyncGroup` returns as the assignment, and whom a generation lets through.
use portask.Prelude.{
  ℕ, ◌^◌, ◌<◌, ◌==◌, ==_iff, ◌≡◌, ◌≢◌, ◌⊎◌, inl, inr, refl, sym, ap, ◌∙◌, subst, Bool-cases, Bool,
  if◌then◌else◌, Option, none, some, List, [], ◌∷◌, arith,
}
use portask.Prelude.Maps.{
  nat_eq, list_eq, beq_list, beq_refl, find, put, remove, find-put, find-put_self,
}
use portask.Groups.{Text, GroupMember, Members, ConsumerGroup, stable, next_generation}
use portask.Groups.Leaders.{Known}
use portask.Groups.Coordinator.{
  Groups, Reply, ok, failed, store_assignments, store_one, synced_group, sync_group, metadata_of,
  checked, heartbeat, after_leave, left_group, leave_group,
}

-- The member of the group passes the checks with the group's generation.
checked-member :
    {A : Type 0} (groups : Groups) (o : Option ConsumerGroup) (g : ConsumerGroup) (id : Text)
    (m : GroupMember) (call : ConsumerGroup → GroupMember → Reply A × Groups)
    → o ≡ some g
    → find g.members id ≡ some m
    → checked o id g.generation groups call ≡ call g m
unfolding checked
checked-member groups o g id m call e f = rw (e, (==_iff g.generation g.generation).1 refl, f) refl

synced-nothing : (id : Text) (now : ℕ) (g : ConsumerGroup) → synced_group id [] now g ≡ g
unfolding synced_group
synced-nothing id now g = elim (Bool-cases (list_eq.beq id g.leader)) [
  | inl p ↦ rw p refl
  | inr p ↦ rw p refl
]

-- Without assignments the member gets its metadata.
pub sync_group_own :
    (group_id id : Text) (now : ℕ) (groups : Groups) (g : ConsumerGroup) (m : GroupMember)
    → find groups group_id ≡ some g
    → find g.members id ≡ some m
    → (sync_group group_id id g.generation [] now groups).0 ≡ ok m.metadata
unfolding sync_group
sync_group_own group_id id now groups g m e f =
    ap (λ r. r.0) (checked-member groups (find groups group_id) g id m _ e f)
    ∙ ap (λ h. ok (metadata_of (find h.members id))) (synced-nothing id now g)
    ∙ ap (λ o. ok (metadata_of o)) f

-- What a member is given of some assignments, the last one for it, or else `d`.
unfoldable pub given_to : Text → List (Text × List ℕ) → List ℕ → List ℕ
given_to id [] d = d
given_to id ((k, a) ∷ rest) d = given_to id rest (if beq_list k id then a else d)

stored_one :
    (members : Members) (k id : Text) (a : List ℕ) (x : GroupMember)
    → find members id ≡ some x
    → (y : GroupMember) × (find (store_one members k a (find members k)) id ≡ some y)
      × (y.metadata ≡ (if beq_list k id then a else x.metadata))
stored_one members k id a x e = go (find members k) refl
  where
    go :
        (o : Option GroupMember)
        → find members k ≡ o
        → (y : GroupMember) × (find (store_one members k a o) id ≡ some y)
          × (y.metadata ≡ (if beq_list k id then a else x.metadata))
    go none f = elim (Bool-cases (list_eq.beq k id)) [
      | inl p ↦
          let same = ap (λ i. find members i) ((list_eq.beq_iff k id).0 p) in
          absurd (subst Known (sym e ∙ sym same ∙ f) tt)
      | inr p ↦ (x, e, rw p refl)
    ]
    go (some y) f = elim (Bool-cases (list_eq.beq k id)) [
      | inl p ↦ (
        record y { metadata = a },
        rw (find-put members k id (record y { metadata = a }), p) refl,
        rw p refl,
      )
      | inr p ↦ (x, rw (find-put members k id (record y { metadata = a }), p) e, rw p refl)
    ]

pub stored :
    (l : List (Text × List ℕ)) (members : Members) (id : Text) (x : GroupMember)
    → find members id ≡ some x
    → (y : GroupMember) × (find (store_assignments l members) id ≡ some y)
      × (y.metadata ≡ given_to id l x.metadata)
unfolding store_assignments given_to
stored [] members id x e = (x, e, refl)
stored ((k, a) ∷ l) members id x e =
    let (y, f, g) = stored_one members k id a x e in
    let (z, h, m) = stored l (store_one members k a (find members k)) id y f in
    (z, h, m ∙ ap (λ d. given_to id l d) g)

abbrev pub delivered : Text × List ℕ → List (Text × List ℕ) → ℕ → ConsumerGroup → ConsumerGroup
delivered a l now g = record g {
  members = store_assignments (a ∷ l) g.members;
  state = stable;
  last_heartbeat = now;
}

synced_leader :
    (a : Text × List ℕ) (l : List (Text × List ℕ)) (now : ℕ) (g : ConsumerGroup)
    → synced_group g.leader (a ∷ l) now g ≡ delivered a l now g
unfolding synced_group
synced_leader a l now g = rw (beq_refl g.leader) refl

pub sync_leader :
    (group_id : Text) (a : Text × List ℕ) (l : List (Text × List ℕ)) (now : ℕ) (groups : Groups)
    (g : ConsumerGroup) (leader : GroupMember)
    → find groups group_id ≡ some g
    → find g.members g.leader ≡ some leader
    → ◌≡◌ {A = Reply (List ℕ) × Groups}
        (sync_group group_id g.leader g.generation (a ∷ l) now groups)
        (
          ok (metadata_of (find (store_assignments (a ∷ l) g.members) g.leader)),
          put groups group_id (delivered a l now g),
        )
unfolding sync_group
sync_leader group_id a l now groups g leader e f =
    checked-member groups (find groups group_id) g g.leader leader _ e f
    ∙ ap (λ h. (ok (metadata_of (find h.members g.leader)), put groups group_id h))
        (synced_leader a l now g)

abbrev pub Refused : {A : Type 0} → Reply A → Type 0
Refused (ok a) = ⊥
Refused (failed e) = Unit {0}

-- A call that does not know the generation, or a member that is not in the group, is refused.
checked-Refused :
    {A : Type 0} (groups : Groups) (o : Option ConsumerGroup) (g : ConsumerGroup) (id : Text)
    (generation : ℕ) (call : ConsumerGroup → GroupMember → Reply A × Groups)
    → o ≡ some g
    → (g.generation ≢ generation) ⊎ (find g.members id ≡ none)
    → Refused (checked o id generation groups call).0
unfolding checked
checked-Refused groups o g id generation call e h = elim (Bool-cases (g.generation == generation)) [
  | inr p ↦ rw (e, p) tt
  | inl p ↦ elim h [
    | inl n ↦ absurd (n ((==_iff g.generation generation).0 p))
    | inr f ↦ rw (e, p, f) tt
  ]
]

next_generation_ne : (g : ℕ) → g < 2 ^ 32 → next_generation g ≢ g
next_generation_ne g h e = omega (arith, h, e)

after_leave_fences :
    (lost : Members → Bool) (rest : Members) (g : ConsumerGroup) (id : Text)
    → g.generation < 2 ^ 32
    → ((after_leave lost rest g).generation ≢ g.generation)
      ⊎ (find (after_leave lost rest g).members id ≡ none)
unfolding after_leave find
after_leave_fences lost [] g id h = inr refl
after_leave_fences lost (m ∷ rest) g id h = inl (next_generation_ne g.generation h)

-- Directly after a call of `LeaveGroup` on a group that exists, whose generation is below 2^32, no
-- `Heartbeat` and no `SyncGroup` of anyone succeeds with the generation that the group had before the
-- call.
pub leave_fences :
    (group_id member_id id : Text) (assignments : List (Text × List ℕ)) (now : ℕ) (groups : Groups)
    (g : ConsumerGroup)
    → find groups group_id ≡ some g
    → g.generation < 2 ^ 32
    → let after = (leave_group group_id member_id groups).1 in
      Refused (heartbeat group_id id g.generation now after).0
      × Refused (sync_group group_id id g.generation assignments now after).0
unfolding leave_group heartbeat sync_group left_group
leave_fences group_id member_id id assignments now groups g e h =
    let fence =
      after_leave_fences (λ members. beq_list member_id g.leader) (remove g.members member_id) g id
        h in
    let found = find-put_self groups group_id (left_group member_id g) in
    rw e (
      checked-Refused (put groups group_id (left_group member_id g)) _ (left_group member_id g) id
          g.generation _ found fence,
      checked-Refused (put groups group_id (left_group member_id g)) _ (left_group member_id g) id
          g.generation _ found fence,
    )
