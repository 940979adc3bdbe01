-- ===== src/Offsets/Tests.antt =====
-- Runs of pkg/kafka/offset_manager.go at concrete inputs, and the theorems at them.
use portask.Prelude.{ℕ, ◌≡◌, refl, none, some, List, [], ◌∷◌}
use portask.Offsets.{fetch_offset, new_offset_manager}
use portask.Offsets.Groups.{
  OffsetCall, commit, delete, run_calls, updates, update, offset_found, fetch_offset-run_calls,
}

abbrev billing : List ℕ
billing = 98 ∷ []

abbrev orders : List ℕ
orders = 111 ∷ []

abbrev commits : List OffsetCall
commits =
    commit billing orders 0 5
    ∷ commit billing orders 1 6
    ∷ delete billing
    ∷ commit billing orders 0 7
    ∷ commit orders orders 0 8
    ∷ []

fetch_offset-run_calls_example :
    offset_found (fetch_offset billing orders 0 (run_calls new_offset_manager commits))
    ≡ updates (λ g t p. none) commits billing orders 0
fetch_offset-run_calls_example = fetch_offset-run_calls commits billing orders 0

commits-billing : updates (λ g t p. none) commits billing orders 0 ≡ some 7
unfolding updates update
commits-billing = refl

commits-deleted : updates (λ g t p. none) commits billing orders 1 ≡ none
unfolding updates update
commits-deleted = refl
