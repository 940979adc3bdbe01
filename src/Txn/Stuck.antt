-- ===== src/Txn/Stuck.antt =====
-- A `TransactionManager` (pkg/kafka/transactions.go) whose coordinator has forgotten its open
-- transaction: the cleanup of expired transactions forgets it.
use portask.Prelude.{
  ℕ, ◌-◌, ◌<◌, ◌≡◌, refl, ap, ◌∙◌, false, none, some, List, [], ◌∷◌, map, arith, lt→ltb,
}
use portask.Prelude.Maps.{nat_eq, list_eq, find}
use portask.Txn.Coordinator.{
  TransactionMetadata, ongoing, prepare_abort, cleanup_expired_transactions, end_transaction,
}
use portask.Txn.Manager.{
  TransactionManager, already_initialized, already_in_progress, no_ongoing, nothing_to_commit,
  nothing_to_abort, failed_to_abort, init_transactions, begin_transaction, add_partitions_to_txn,
  commit_transaction, after_abort, abort_transaction, cleanup,
}
use portask.Txn.Spec.{ManagerCall, init, begin, commit, abort, add}
use portask.Txn.Calls.{call, calls, metadata_of, Refuses, succeeded}

prepare_abort-Refuses :
    (tm : TransactionManager) (c : ManagerCall) → tm.state ≡ prepare_abort → Refuses tm c
unfolding Refuses call init_transactions begin_transaction add_partitions_to_txn commit_transaction
    abort_transaction
prepare_abort-Refuses tm (init now) h = (already_initialized prepare_abort, ground arith)
prepare_abort-Refuses tm (begin now) h = (already_in_progress prepare_abort, ground arith)
prepare_abort-Refuses tm (add now request) h = (no_ongoing prepare_abort, ground arith)
prepare_abort-Refuses tm (commit now) h = (nothing_to_commit prepare_abort, ground arith)
prepare_abort-Refuses tm (abort now) h = (nothing_to_abort prepare_abort, ground arith)

prepare_abort-calls :
    (tm : TransactionManager) (cs : List ManagerCall)
    → tm.state ≡ prepare_abort
    → calls tm cs ≡ (map (λ c. false) cs, tm)
unfolding calls Refuses
prepare_abort-calls tm [] h = refl
prepare_abort-calls tm (c ∷ cs) h =
    let (e, p) = prepare_abort-Refuses tm c h in
    ap (λ o. let (bs, tm'') = calls o.1 cs in (succeeded o.0 ∷ bs, tm'')) p
    ∙ ap (λ o. (false ∷ o.0, o.1)) (prepare_abort-calls tm cs h)

forgotten :
    (now max_age : ℕ) (tm : TransactionManager) (m : TransactionMetadata)
    → tm.coordinator ≡ (tm.transactional_id, m) ∷ []
    → max_age < now - m.last_update_time
    → metadata_of (cleanup now max_age tm) ≡ none
unfolding cleanup cleanup_expired_transactions find
forgotten now max_age tm m e h =
    ap (λ tc. find (cleanup_expired_transactions now max_age tc) tm.transactional_id) e
    ∙ rw (lt→ltb max_age (now - m.last_update_time) h) refl

abort-forgotten :
    (now : ℕ) (tm : TransactionManager)
    → tm.state ≡ ongoing
    → metadata_of tm ≡ none
    → abort_transaction now tm ≡ (some failed_to_abort, record tm { state = prepare_abort })
unfolding abort_transaction after_abort end_transaction
abort-forgotten now tm h f = ground arith

-- When the cleanup has dropped the open transaction of a manager, which is older than its limit,
-- `AbortTransaction` fails, and from then on every call of the manager fails and leaves it as it is.
pub expired_wedges :
    (now now' max_age : ℕ) (tm : TransactionManager) (m : TransactionMetadata)
    (cs : List ManagerCall)
    → tm.state ≡ ongoing
    → tm.coordinator ≡ (tm.transactional_id, m) ∷ []
    → max_age < now - m.last_update_time
    → let (e, tm') = abort_transaction now' (cleanup now max_age tm) in
      (e ≡ some failed_to_abort) × (calls tm' cs ≡ (map (λ c. false) cs, tm'))
unfolding cleanup
expired_wedges now now' max_age tm m cs h e old =
    let p = abort-forgotten now' (cleanup now max_age tm) h (forgotten now max_age tm m e old) in
    (
      ap (λ o. o.0) p,
      prepare_abort-calls (abort_transaction now' (cleanup now max_age tm)).1 cs
          (ap (λ o. o.1.state) p),
    )
