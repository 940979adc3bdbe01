-- ===== src/Txn/Calls.antt =====
-- Calls of a `TransactionManager` (pkg/kafka/transactions.go) one after another, against the
-- machine of Txn/Spec.antt.
use portask.Prelude.{
  ℕ, ◌+◌, ◌%◌, ◌^◌, ◌≡◌, refl, sym, ap, ap₂, ◌∙◌, subst, Bool, true, false, ◌||◌, if◌then◌else◌,
  Option, none, some, List, [], ◌∷◌, arith,
}
use portask.Prelude.Maps.{nat_eq, list_eq, contains, find, put, find-put_self}
use portask.Txn.Coordinator.{
  TransactionState, TransactionMetadata, empty, ongoing, complete_commit, complete_abort,
  init_producer_id, add_transaction, add_partitions_to_transaction, end_transaction,
  merge_partitions,
}
use portask.Txn.Manager.{
  TransactionManager, TxnError, already_initialized, already_in_progress, no_ongoing,
  nothing_to_commit, nothing_to_abort, Outcome, new_transaction_manager, begun, init_transactions,
  begin_transaction, add_partitions_to_txn, after_commit, commit_transaction, after_abort,
  abort_transaction,
}
use portask.Txn.Partitions.{listed, enrolled, or_none, enrolled-merge_partitions}
use portask.Txn.Spec.{
  ManagerCall, init, begin, commit, abort, add, Phase, unused, open_with, ended, View, answer, run,
}

-- Is the error nil?
abbrev pub succeeded : Option TxnError → Bool
succeeded none = true
succeeded (some e) = false

unfoldable pub call : TransactionManager → ManagerCall → Outcome
call tm (init now) = init_transactions now tm
call tm (begin now) = begin_transaction now tm
call tm (add now request) = add_partitions_to_txn now request tm
call tm (commit now) = commit_transaction now tm
call tm (abort now) = abort_transaction now tm

unfoldable pub calls : TransactionManager → List ManagerCall → List Bool × TransactionManager
calls tm [] = ([], tm)
calls tm (c ∷ cs) =
    let (e, tm') = call tm c in let (bs, tm'') = calls tm' cs in (succeeded e ∷ bs, tm'')

-- The coordinator's metadata of the transaction.
abbrev pub metadata_of : TransactionManager → Option TransactionMetadata
metadata_of tm = find tm.coordinator tm.transactional_id

-- The transaction is known to the coordinator with the state, the epoch and the id of the manager.
pub record Known (tm : TransactionManager) (s : TransactionState) (epoch : ℕ) : Type 0 where
  pub metadata : TransactionMetadata
  pub found : metadata_of tm ≡ some metadata
  pub state_eq : metadata.state ≡ s
  pub epoch_eq : metadata.producer_epoch ≡ epoch

abbrev pub outcome_state : Bool → TransactionState
outcome_state c = if c then complete_commit else complete_abort

-- What the phase says of the manager and of its coordinator.
abbrev pub PhaseHolds : TransactionManager → Phase → Type 0
PhaseHolds tm unused = (tm.state ≡ empty) × (metadata_of tm ≡ none)
PhaseHolds tm (open_with last set) =
    (tm.state ≡ ongoing)
    × ((k : Known tm ongoing last) × ((topic : List ℕ) (p : ℕ)
          → enrolled k.metadata.topic_partitions topic p ≡ set topic p))
PhaseHolds tm (ended last c) = (tm.state ≡ empty) × Known tm (outcome_state c) last

pub record Represents (tm : TransactionManager) (v : View) : Type 0 where
  pub epoch_eq : tm.producer_epoch ≡ v.0
  pub phase : PhaseHolds tm v.1

pub record Answers (tm : TransactionManager) (v : View) (c : ManagerCall) : Type 0 where
  pub reply : succeeded (call tm c).0 ≡ (answer v c).0
  pub next : Represents (call tm c).1 (answer v c).1

Answers-intro :
    (tm : TransactionManager) (v : View) (c : ManagerCall) {o : Outcome}
    → call tm c ≡ o
    → succeeded o.0 ≡ (answer v c).0
    → Represents o.1 (answer v c).1
    → Answers tm v c
Answers-intro tm v c e reply next = record {
  reply = ap (λ o. succeeded o.0) e ∙ reply;
  next = subst (λ o. Represents o.1 (answer v c).1) (sym e) next;
}

-- The metadata that a write leaves.
abbrev with_metadata :
    TransactionManager → TransactionMetadata → TransactionState → TransactionManager
with_metadata tm m s = record tm {
  coordinator = put tm.coordinator tm.transactional_id m;
  state = s;
}

found-with_metadata :
    (tm : TransactionManager) (m : TransactionMetadata) (s : TransactionState)
    → metadata_of (with_metadata tm m s) ≡ some m
found-with_metadata tm m s = find-put_self tm.coordinator tm.transactional_id m

begin-empty :
    (now : ℕ) (tm : TransactionManager)
    → tm.state ≡ empty
    → begin_transaction now tm ≡ (none, with_metadata tm (begun now tm) ongoing)
unfolding begin_transaction add_transaction begun
begin-empty now tm h = ground arith

init-empty :
    (now : ℕ) (tm : TransactionManager)
    → tm.state ≡ empty
    → init_transactions now tm ≡ (
      none,
      record tm {
        producer_id = (init_producer_id now tm.transactional_id tm.coordinator).0;
        producer_epoch = (init_producer_id now tm.transactional_id tm.coordinator).1;
        state = empty;
      },
    )
unfolding init_transactions
init-empty now tm h = ground arith

add-ongoing :
    (now : ℕ) (request : List (List ℕ × List ℕ)) (tm : TransactionManager) (m : TransactionMetadata)
    → tm.state ≡ ongoing
    → metadata_of tm ≡ some m
    → add_partitions_to_txn now request tm ≡ (
      none,
      with_metadata tm
          (record m {
            topic_partitions = merge_partitions m.topic_partitions request;
            last_update_time = now;
          })
          ongoing,
    )
unfolding add_partitions_to_txn add_partitions_to_transaction
add-ongoing now request tm m h f = ground arith

end-ongoing :
    (now : ℕ) (c : Bool) (tm : TransactionManager) (m : TransactionMetadata)
    → tm.state ≡ ongoing
    → metadata_of tm ≡ some m
    → call tm (if c then commit now else abort now) ≡ (
      none,
      with_metadata tm (record m { state = outcome_state c; last_update_time = now }) empty,
    )
unfolding call commit_transaction abort_transaction after_abort after_commit end_transaction
end-ongoing now true tm m h f = ground arith
end-ongoing now false tm m h f = ground arith

-- A call that the phase refuses leaves the manager.
unfoldable pub Refuses : TransactionManager → ManagerCall → Type 0
Refuses tm c = (e : TxnError) × (call tm c ≡ (some e, tm))

refused :
    (tm : TransactionManager) (v : View) (c : ManagerCall)
    → Refuses tm c
    → answer v c ≡ (false, v)
    → Represents tm v
    → Answers tm v c
unfolding Refuses
refused tm v c (e, eq) a r =
    Answers-intro tm v c eq (ap (λ x. x.0) (sym a)) (subst (λ x. Represents tm x.1) (sym a) r)

Refuses-ongoing :
    (tm : TransactionManager) (now : ℕ)
    → tm.state ≡ ongoing
    → Refuses tm (init now) × Refuses tm (begin now)
unfolding Refuses call init_transactions begin_transaction
Refuses-ongoing tm now h =
    ((already_initialized ongoing, ground arith), (already_in_progress ongoing, ground arith))

Refuses-empty :
    (tm : TransactionManager) (now : ℕ) (request : List (List ℕ × List ℕ))
    → tm.state ≡ empty
    → Refuses tm (commit now) × (Refuses tm (abort now) × Refuses tm (add now request))
unfolding Refuses call commit_transaction abort_transaction add_partitions_to_txn
Refuses-empty tm now request h = (
  (nothing_to_commit empty, ground arith),
  ((nothing_to_abort empty, ground arith), (no_ongoing empty, ground arith)),
)

begin-Answers :
    (now : ℕ) (tm : TransactionManager) (epoch : ℕ) {v : View}
    → tm.state ≡ empty
    → tm.producer_epoch ≡ epoch
    → answer v (begin now) ≡ (true, (epoch, open_with epoch (λ topic p. false)))
    → Answers tm v (begin now)
unfolding call begun enrolled or_none contains find
begin-Answers now tm epoch {v} h e a =
    Answers-intro tm v (begin now) (begin-empty now tm h) (ap (λ x. x.0) (sym a)) (
      subst (λ x. Represents (with_metadata tm (begun now tm) ongoing) x.1) (sym a)
        (record {
          epoch_eq = e;
          phase = (
            refl,
            (
              record {
                metadata = begun now tm;
                found = found-with_metadata tm (begun now tm) ongoing;
                state_eq = refl;
                epoch_eq = e;
              },
              λ topic p. refl,
            ),
          );
        }))

init-epoch :
    (now : ℕ) (tm : TransactionManager) (o : Option TransactionMetadata)
    → metadata_of tm ≡ o
    → (init_producer_id now tm.transactional_id tm.coordinator).1
      ≡ elim o [ none ↦ 0 | some m ↦ (m.producer_epoch + 1) % 2 ^ 16 ]
unfolding init_producer_id
init-epoch now tm none f = ground arith
init-epoch now tm (some m) f = ground arith

end-Answers :
    (now : ℕ) (c : Bool) (tm : TransactionManager) (epoch last : ℕ) (set : List ℕ → ℕ → Bool)
    → Represents tm (epoch, open_with last set)
    → Answers tm (epoch, open_with last set) (if c then commit now else abort now)
end-Answers now c tm epoch last set r =
    let k = r.phase.1.0 in
    let m = record k.metadata { state = outcome_state c; last_update_time = now } in
    Answers-intro tm (epoch, open_with last set) (if c then commit now else abort now)
      (end-ongoing now c tm k.metadata r.phase.0 k.found) (ap (λ x. x.0) (sym (ended_answer c)))
      (subst (λ x. Represents (with_metadata tm m empty) x.1) (sym (ended_answer c))
        (record {
          epoch_eq = r.epoch_eq;
          phase = (
            refl,
            record {
              metadata = m;
              found = found-with_metadata tm m empty;
              state_eq = refl;
              epoch_eq = k.epoch_eq;
            },
          );
        }))
  where
    ended_answer :
        (b : Bool)
        → answer (epoch, open_with last set) (if b then commit now else abort now)
          ≡ (true, (epoch, ended last b))
    ended_answer true = refl
    ended_answer false = refl

add-Answers :
    (now : ℕ) (request : List (List ℕ × List ℕ)) (tm : TransactionManager) (epoch last : ℕ)
    (set : List ℕ → ℕ → Bool)
    → Represents tm (epoch, open_with last set)
    → Answers tm (epoch, open_with last set) (add now request)
unfolding call
add-Answers now request tm epoch last set r =
    let k = r.phase.1.0 in
    let m = record k.metadata {
      topic_partitions = merge_partitions k.metadata.topic_partitions request;
      last_update_time = now;
    } in
    Answers-intro tm (epoch, open_with last set) (add now request)
      (add-ongoing now request tm k.metadata r.phase.0 k.found) refl
      (record {
        epoch_eq = r.epoch_eq;
        phase = (
          refl,
          (
            record {
              metadata = m;
              found = found-with_metadata tm m ongoing;
              state_eq = k.state_eq;
              epoch_eq = k.epoch_eq;
            },
            λ topic p.
                enrolled-merge_partitions k.metadata.topic_partitions request topic p
                ∙ ap (λ b. b || listed request topic p) (r.phase.1.1 topic p),
          ),
        );
      })

pub call-Answers :
    (tm : TransactionManager) (v : View) (c : ManagerCall) → Represents tm v → Answers tm v c
unfolding call
call-Answers tm (epoch, unused) (init now) r =
    Answers-intro tm (epoch, unused) (init now) (init-empty now tm r.phase.0) refl
      (record { epoch_eq = init-epoch now tm none r.phase.1; phase = (refl, r.phase.1) })
call-Answers tm (epoch, open_with last set) (init now) r =
    refused tm (epoch, open_with last set) (init now) (Refuses-ongoing tm now r.phase.0).0 refl r
call-Answers tm (epoch, ended last c) (init now) r =
    Answers-intro tm (epoch, ended last c) (init now) (init-empty now tm r.phase.0) refl
      (record {
        epoch_eq =
            init-epoch now tm (some r.phase.1.metadata) r.phase.1.found
            ∙ ap (λ n. (n + 1) % 2 ^ 16) r.phase.1.epoch_eq;
        phase = (
          refl,
          record {
            metadata = r.phase.1.metadata;
            found = r.phase.1.found;
            state_eq = r.phase.1.state_eq;
            epoch_eq = r.phase.1.epoch_eq;
          },
        );
      })
call-Answers tm (epoch, unused) (begin now) r = begin-Answers now tm epoch r.phase.0 r.epoch_eq refl
call-Answers tm (epoch, open_with last set) (begin now) r =
    refused tm (epoch, open_with last set) (begin now) (Refuses-ongoing tm now r.phase.0).1 refl r
call-Answers tm (epoch, ended last c) (begin now) r =
    begin-Answers now tm epoch r.phase.0 r.epoch_eq refl
call-Answers tm (epoch, unused) (add now request) r =
    refused tm (epoch, unused) (add now request) (Refuses-empty tm now request r.phase.0).1.1 refl r
call-Answers tm (epoch, open_with last set) (add now request) r =
    add-Answers now request tm epoch last set r
call-Answers tm (epoch, ended last c) (add now request) r =
    refused tm (epoch, ended last c) (add now request) (Refuses-empty tm now request r.phase.0).1.1
      refl r
call-Answers tm (epoch, unused) (commit now) r =
    refused tm (epoch, unused) (commit now) (Refuses-empty tm now [] r.phase.0).0 refl r
call-Answers tm (epoch, ended last c) (commit now) r =
    refused tm (epoch, ended last c) (commit now) (Refuses-empty tm now [] r.phase.0).0 refl r
call-Answers tm (epoch, unused) (abort now) r =
    refused tm (epoch, unused) (abort now) (Refuses-empty tm now [] r.phase.0).1.0 refl r
call-Answers tm (epoch, ended last c) (abort now) r =
    refused tm (epoch, ended last c) (abort now) (Refuses-empty tm now [] r.phase.0).1.0 refl r
call-Answers tm (epoch, open_with last set) (commit now) r =
    end-Answers now true tm epoch last set r
call-Answers tm (epoch, open_with last set) (abort now) r =
    end-Answers now false tm epoch last set r

calls_represent :
    (tm : TransactionManager) (v : View) (cs : List ManagerCall)
    → Represents tm v
    → ((calls tm cs).0 ≡ (run v cs).0) × Represents (calls tm cs).1 (run v cs).1
unfolding calls run
calls_represent tm v [] r = (refl, r)
calls_represent tm v (c ∷ cs) r =
    let a = call-Answers tm v c r in
    let (bs, r') = calls_represent (call tm c).1 (answer v c).1 cs a.next in
    (ap₂ (λ b l. b ∷ l) a.reply bs, r')

-- The calls of a new `TransactionManager` succeed and fail as the machine of three phases says; at
-- the end the manager's state and epoch are those of its phase, and so are the coordinator's state,
-- epoch and set of partitions for the transaction.
pub manager_refines :
    (id : List ℕ) (timeout : ℕ) (cs : List ManagerCall)
    → let (bs, tm) = calls (new_transaction_manager id timeout) cs in
      let (bs', v) = run (0, unused) cs in (bs ≡ bs') × Represents tm v
unfolding new_transaction_manager find
manager_refines id timeout cs =
    calls_represent (new_transaction_manager id timeout) (0, unused) cs
      (record { epoch_eq = refl; phase = (refl, refl) })
