-- ===== src/Stores/Tests.antt =====
-- Tests and examples of the stores in memory.
use portask.Prelude.{ℕ, ◌<◌, ◌≡◌, ap, List, [], ◌∷◌, arith}
use portask.Prelude.Maps.{nat_eq, list_eq}
use portask.Message.{PortaskMessage, new_message}
use portask.Stores.{
  Text, InMemoryStorage, new_in_memory_storage, fetch, InMemoryStore, new_in_memory_store,
  fetch_topic, ConsumerOffset, underscore, commit_offset_batch, get_offset,
}
use portask.Stores.Fetch.{Wants, Picks, fetch-Picks}
use portask.Stores.Numbers.{Call, stores, deletes, Numbered, run_calls, run_calls-Numbered}
use portask.Stores.Consumers.{Plain, committed, get_offset-committed}

abbrev message : List ℕ → PortaskMessage
message id = new_message id 5 (1 ∷ []) (3 ∷ 4 ∷ [])

abbrev stored : InMemoryStorage
stored = record {
  messages = (7 ∷ [], message (7 ∷ [])) ∷ (8 ∷ [], message (8 ∷ [])) ∷ [];
  next_offset = 2;
}

abbrev kept : InMemoryStore
kept = record { messages = (7 ∷ [], message (7 ∷ [])) ∷ []; offsets = [] }

fetch-Picks_example :
    Picks (Wants (1 ∷ []) 0 0) 1 stored.messages (fetch (1 ∷ []) 0 0 0 stored)
    × Picks (λ m. m.topic ≡ 1 ∷ []) 1 kept.messages (fetch_topic (1 ∷ []) 0 kept)
fetch-Picks_example = fetch-Picks (1 ∷ []) 0 0 0 stored kept

abbrev calls : List Call
calls =
    stores (message (7 ∷ []))
    ∷ stores (message (8 ∷ []))
    ∷ deletes (7 ∷ [])
    ∷ stores (message (7 ∷ []))
    ∷ []

run_calls-Numbered_example : Numbered (run_calls calls new_in_memory_storage)
run_calls-Numbered_example = run_calls-Numbered calls (omega arith)

-- A printer of numbers for the examples.
abbrev digit : ℕ → Text
digit n = n ∷ []

abbrev first : Text → ℕ
first [] = 0
first (n ∷ text) = n

abbrev commit : List ℕ → List ℕ → ConsumerOffset
commit consumer_id topic = record {
  consumer_id = consumer_id;
  topic = topic;
  partition = 0;
  offset = 9;
}

one-Plain : (n : ℕ) → n < underscore → Plain (n ∷ [])
one-Plain n h = ((λ e. omega (arith, h, e)), tt)

get_offset-committed_example :
    get_offset digit (1 ∷ []) (2 ∷ []) 0 (
      commit_offset_batch digit
        (commit (1 ∷ []) (2 ∷ []) ∷ commit (1 ∷ []) (3 ∷ []) ∷ [])
        new_in_memory_store)
    ≡ commit (1 ∷ []) (2 ∷ [])
unfolding committed
get_offset-committed_example =
    get_offset-committed digit (λ a b e. ap first e)
      (commit (1 ∷ []) (2 ∷ []) ∷ commit (1 ∷ []) (3 ∷ []) ∷ []) (1 ∷ []) (2 ∷ []) 0
      (
        one-Plain 1 (omega arith),
        one-Plain 2 (omega arith),
        (one-Plain 1 (omega arith), one-Plain 3 (omega arith), tt),
      )
      (one-Plain 1 (omega arith)) (one-Plain 2 (omega arith))
