-- ===== src/Groups/Delivered.antt =====
-- Who gets the leader's assignments from `SyncGroup` of pkg/kafka/group_coordinator.go, while other
-- calls go on.
use portask.Prelude.{
  ℕ, ◌≡◌, ◌≢◌, ◌⊎◌, inl, inr, refl, sym, ap, ◌∙◌, Bool-cases, false≢true, ◌==◌, Option, none, some,
  List, ◌∷◌, [],
}
use portask.Prelude.Maps.{nat_eq, list_eq, beq-ne, find, put, find-put, find-put_self, find-put_ne}
use portask.Groups.{Text, GroupMember, ConsumerGroup}
use portask.Groups.Coordinator.{
  Groups, Reply, ok, join_group, sync_group, synced_group, heartbeat, leave_group, left_found,
  metadata_of, checked, with_member,
}
use portask.Groups.Calls.{Call, join, sync, beat, leave, tick, run_call, run_calls}
use portask.Groups.Sync.{sync_group_own, stored, given_to, delivered, sync_leader}

-- A call that leaves the group's members, leader and generation: any heartbeat, a `SyncGroup` of the
-- group that is not its leader's, and joins, leaves and syncs of other groups.
abbrev pub IsQuiet : Text → Text → Call → Type 0
IsQuiet group_id leader (join h j generated now) = h ≢ group_id
IsQuiet group_id leader (sync h id generation assignments now) = (h ≢ group_id) ⊎ (id ≢ leader)
IsQuiet group_id leader (beat h id generation now) = Unit {0}
IsQuiet group_id leader (leave h id) = h ≢ group_id
IsQuiet group_id leader (tick now) = ⊥

same_group : {a b : ConsumerGroup} → some a ≡ some b → a ≡ b
same_group e = cc e

abbrev pub AllQuiet : Text → Text → List Call → Type 0
AllQuiet group_id leader [] = Unit {0}
AllQuiet group_id leader (c ∷ calls) = IsQuiet group_id leader c × AllQuiet group_id leader calls

module _ (group_id leader id : Text) (generation : ℕ) (metadata : List ℕ) where
  -- The group has the leader and the generation, and the member its assignment.
  record Keeps (groups : Groups) : Type 0 where
    g : ConsumerGroup
    m : GroupMember
    found : find groups group_id ≡ some g
    led : g.leader ≡ leader
    numbered : g.generation ≡ generation
    known : find g.members id ≡ some m
    given : m.metadata ≡ metadata

  put_other :
      (h : Text) (g' : ConsumerGroup) (groups : Groups)
      → h ≢ group_id
      → Keeps groups
      → Keeps (put groups h g')
  put_other h g' groups n k = record {
    g = k.g;
    m = k.m;
    found = find-put_ne groups {k = h} {j = group_id} g' n ∙ k.found;
    led = k.led;
    numbered = k.numbered;
    known = k.known;
    given = k.given;
  }

  -- The group found under a name is replaced by one that keeps what matters.
  put_found :
      (h : Text) (g g' : ConsumerGroup) (groups : Groups)
      → find groups h ≡ some g
      → Keeps groups
      → (h ≡ group_id
          → (g'.leader ≡ g.leader)
            × (g'.generation ≡ g.generation)
            × ((m : GroupMember)
                → find g.members id ≡ some m
                → (m' : GroupMember) × (find g'.members id ≡ some m') × (m'.metadata ≡ m.metadata)))
      → Keeps (put groups h g')
  put_found h g g' groups e k same = elim (Bool-cases (list_eq.beq h group_id)) [
    | inr p ↦ put_other h g' groups (λ q. false≢true (sym p ∙ (list_eq.beq_iff h group_id).1 q)) k
    | inl p ↦
        let q : h ≡ group_id = (list_eq.beq_iff h group_id).0 p in
        let here : k.g ≡ g = same_group (sym k.found ∙ ap (λ i. find groups i) (sym q) ∙ e) in
        let (led, numbered, members) = same q in
        let (m', f, d) = members k.m (ap (λ x. find x.members id) (sym here) ∙ k.known) in
        record {
          g = g';
          m = m';
          found = ap (λ i. find (put groups h g') i) (sym q) ∙ find-put_self groups h g';
          led = led ∙ ap (λ x. x.leader) (sym here) ∙ k.led;
          numbered = numbered ∙ ap (λ x. x.generation) (sym here) ∙ k.numbered;
          known = f;
          given = d ∙ k.given;
        }
  ]

  module _ {A : Type 0} (h id' : Text) (n : ℕ) (groups : Groups) (k : Keeps groups)
      (call : ConsumerGroup → GroupMember → Reply A × Groups) where
    with_member-Keeps :
        (o : Option GroupMember) (g : ConsumerGroup)
        → ((m : GroupMember) → o ≡ some m → Keeps (call g m).1)
        → Keeps (with_member o groups (call g)).1
    with_member-Keeps none g c = k
    with_member-Keeps (some m) g c = c m refl

    checked-Keeps :
        (o : Option ConsumerGroup)
        → ((g : ConsumerGroup) (m : GroupMember)
            → o ≡ some g
            → find g.members id' ≡ some m
            → Keeps (call g m).1)
        → Keeps (checked o id' n groups call).1
    unfolding checked
    checked-Keeps none c = k
    checked-Keeps (some g) c = elim (Bool-cases (g.generation == n)) [
      | inr p ↦ rw p k
      | inl p ↦ rw p (with_member-Keeps (find g.members id') g (λ m e. c g m refl e))
    ]

  synced_other :
      (id' : Text) (a : List (Text × List ℕ)) (now : ℕ) (g : ConsumerGroup)
      → id' ≢ g.leader
      → synced_group id' a now g ≡ g
  unfolding synced_group
  synced_other id' a now g n = rw (beq-ne {a = id'} {b = g.leader} n) refl

  sync-Keeps :
      (h id' : Text) (a : List (Text × List ℕ)) (now : ℕ) (g : ConsumerGroup) (groups : Groups)
      → find groups h ≡ some g
      → Keeps groups
      → id' ≢ leader
      → Keeps (put groups h (synced_group id' a now g))
  sync-Keeps h id' a now g groups e k n = put_found h g (synced_group id' a now g) groups e k (λ q.
      let here : k.g ≡ g = cc (sym k.found ∙ ap (λ i. find groups i) (sym q) ∙ e) in
      let same = synced_other id' a now g (λ l. n (l ∙ ap (λ x. x.leader) (sym here) ∙ k.led)) in
      (
        ap (λ x. x.leader) same,
        ap (λ x. x.generation) same,
        λ m f. (m, ap (λ x. find x.members id) same ∙ f, refl),
      ))

  beat-Keeps :
      (h id' : Text) (now : ℕ) (g : ConsumerGroup) (m : GroupMember) (groups : Groups)
      → find groups h ≡ some g
      → find g.members id' ≡ some m
      → Keeps groups
      → Keeps (
          put groups h
            (record g { members = put g.members id' (record m { last_heartbeat = now }) }))
  beat-Keeps h id' now g m groups e f k =
      let m' = record m { last_heartbeat = now } in
      put_found h g (record g { members = put g.members id' m' }) groups e k
        (λ q. (
          refl,
          refl,
          λ x w. elim (Bool-cases (list_eq.beq id' id)) [
            | inr p ↦ (x, rw (find-put g.members id' id m', p) w, refl)
            | inl p ↦
                let same : m ≡ x =
                  cc (sym f ∙ ap (λ i. find g.members i) ((list_eq.beq_iff id' id).0 p) ∙ w) in
                (m', rw (find-put g.members id' id m', p) refl, ap (λ y. y.metadata) same)
          ],
        ))

  leave-Keeps :
      (h id' : Text) (groups : Groups) (o : Option ConsumerGroup)
      → h ≢ group_id
      → Keeps groups
      → Keeps (left_found o h id' groups).1
  leave-Keeps h id' groups none n k = k
  leave-Keeps h id' groups (some g) n k = put_other h _ groups n k

  run_call-Keeps :
      (c : Call) (groups : Groups)
      → IsQuiet group_id leader c
      → Keeps groups
      → Keeps (run_call c groups)
  unfolding run_call join_group sync_group heartbeat leave_group
  run_call-Keeps (join h j generated now) groups n k = put_other h _ groups n k
  run_call-Keeps (sync h id' n a now) groups (inl o) k =
      checked-Keeps h id' n groups k _ (find groups h) (λ g m e f. put_other h _ groups o k)
  run_call-Keeps (sync h id' n a now) groups (inr o) k =
      checked-Keeps h id' n groups k _ (find groups h)
        (λ g m e f. sync-Keeps h id' a now g groups e k o)
  run_call-Keeps (beat h id' n now) groups q k =
      checked-Keeps h id' n groups k _ (find groups h)
        (λ g m e f. beat-Keeps h id' now g m groups e f k)
  run_call-Keeps (leave h id') groups n k = leave-Keeps h id' groups (find groups h) n k
  run_call-Keeps (tick now) groups q k = absurd q

  run_calls-Keeps :
      (calls : List Call) (groups : Groups)
      → AllQuiet group_id leader calls
      → Keeps groups
      → Keeps (run_calls calls groups)
  unfolding run_calls
  run_calls-Keeps [] groups q k = k
  run_calls-Keeps (c ∷ calls) groups (q, qs) k =
      run_calls-Keeps calls (run_call c groups) qs (run_call-Keeps c groups q k)

  Keeps-sync :
      (now : ℕ) (groups : Groups)
      → Keeps groups
      → (sync_group group_id id generation [] now groups).0 ≡ ok metadata
  Keeps-sync now groups k =
      ap (λ n. (sync_group group_id id n [] now groups).0) (sym k.numbered)
      ∙ sync_group_own group_id id now groups k.g k.m k.found k.known
      ∙ ap ok k.given

-- The leader of a group, one of its members, calls `SyncGroup` with the group's generation and at
-- least one assignment: it gets its own assignment; and so does every member that calls `SyncGroup`
-- with this generation and without assignments later on, after any heartbeats and any `SyncGroup` of
-- others than the leader, and any joins, leaves and syncs of other groups: the last one listed for
-- it, or the metadata that it had if none is.
pub leader_sync_delivers :
    (group_id : Text) (a : Text × List ℕ) (l : List (Text × List ℕ)) (now later : ℕ)
    (groups : Groups) (g : ConsumerGroup) (leader m : GroupMember) (id : Text) (calls : List Call)
    → find groups group_id ≡ some g
    → find g.members g.leader ≡ some leader
    → find g.members id ≡ some m
    → AllQuiet group_id g.leader calls
    → let (reply, after) = sync_group group_id g.leader g.generation (a ∷ l) now groups in
      (reply ≡ ok (given_to g.leader (a ∷ l) leader.metadata))
      × ((sync_group group_id id g.generation [] later (run_calls calls after)).0
          ≡ ok (given_to id (a ∷ l) m.metadata))
leader_sync_delivers group_id a l now later groups g leader m id calls e f k q =
    let h = delivered a l now g in
    let r = sync_leader group_id a l now groups g leader e f in
    let (x, p, s) = stored (a ∷ l) g.members g.leader leader f in
    let (y, t, u) = stored (a ∷ l) g.members id m k in
    let given = given_to id (a ∷ l) m.metadata in
    let start : Keeps group_id g.leader id g.generation given (put groups group_id h) = record {
      g = h;
      m = y;
      found = find-put_self groups group_id h;
      led = refl;
      numbered = refl;
      known = t;
      given = u;
    } in
    let run = run_calls-Keeps group_id g.leader id g.generation given calls in
    (
      ap (λ r. r.0) r ∙ ap (λ o. ok (metadata_of o)) p ∙ ap ok s,
      ap (λ r. (sync_group group_id id g.generation [] later (run_calls calls r.1)).0) r
          ∙ Keeps-sync group_id g.leader id g.generation given later _
              (run (put groups group_id h) q start),
    )
