-- ===== src/Txn/Spec.antt =====
-- What a `TransactionManager` of pkg/kafka/transactions.go promises while its coordinator forgets
-- no transaction: its calls and whether each succeeds, as a machine of three phases.
use portask.Prelude.{ℕ, ◌+◌, ◌%◌, ◌^◌, Bool, true, false, ◌||◌, List, [], ◌∷◌}
use portask.Txn.Partitions.{listed}

pub data ManagerCall : Type 0 where
  init begin commit abort : ℕ → ManagerCall
  add : ℕ → List (List ℕ × List ℕ) → ManagerCall

-- No transaction was begun; one is open with a set of partitions; or the last one was ended, by a
-- commit or not. The number is the producer epoch of the last transaction.
pub data Phase : Type 0 where
  unused : Phase
  open_with : ℕ → (List ℕ → ℕ → Bool) → Phase
  ended : ℕ → Bool → Phase

-- The producer epoch of the manager, and the phase.
abbrev pub View : Type 0
View = ℕ × Phase

abbrev pub answer : View → ManagerCall → Bool × View
answer (epoch, unused) (init now) = (true, (0, unused))
answer (epoch, open_with last set) (init now) = (false, (epoch, open_with last set))
answer (epoch, ended last c) (init now) = (true, ((last + 1) % 2 ^ 16, ended last c))
answer (epoch, unused) (begin now) = (true, (epoch, open_with epoch (λ topic p. false)))
answer (epoch, open_with last set) (begin now) = (false, (epoch, open_with last set))
answer (epoch, ended last c) (begin now) = (true, (epoch, open_with epoch (λ topic p. false)))
answer (epoch, open_with last set) (add now request) =
    (true, (epoch, open_with last (λ topic p. set topic p || listed request topic p)))
answer (epoch, unused) (add now request) = (false, (epoch, unused))
answer (epoch, ended last c) (add now request) = (false, (epoch, ended last c))
answer (epoch, open_with last set) (commit now) = (true, (epoch, ended last true))
answer (epoch, unused) (commit now) = (false, (epoch, unused))
answer (epoch, ended last c) (commit now) = (false, (epoch, ended last c))
answer (epoch, open_with last set) (abort now) = (true, (epoch, ended last false))
answer (epoch, unused) (abort now) = (false, (epoch, unused))
answer (epoch, ended last c) (abort now) = (false, (epoch, ended last c))

-- The answers to a list of calls, and the view at the end.
unfoldable pub run : View → List ManagerCall → List Bool × View
run v [] = ([], v)
run v (c ∷ cs) = let (b, v') = answer v c in let (bs, v'') = run v' cs in (b ∷ bs, v'')
