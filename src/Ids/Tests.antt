-- ===== src/Ids/Tests.antt =====
-- Tests and examples of the identifiers of pkg/types/ulid.go.
use portask.Prelude.{ℕ, ◌≡◌, refl, true, if◌then◌else◌, Option, none, some, List, [], ◌∷◌}
use portask.Prelude.Maps.{nat_eq, contains}
use portask.Ids.{
  Text, itoa, itoa_loop, parsed_at, decode_failed, time_bytes, timestamp, parse_ulid_timestamp,
}
use portask.Ids.Parsing.{parse_ulid_timestamp_fails}

itoa-407 : itoa 407 ≡ some (52 ∷ 48 ∷ 55 ∷ [])
unfolding itoa itoa_loop
itoa-407 = refl

time_round : timestamp (time_bytes 1700000000123) ≡ parsed_at 1700000000123
unfolding time_bytes timestamp
time_round = refl

-- A decoder for the example, which refuses a `=`.
abbrev decode : Text → Option (List ℕ)
decode text = if contains text 61 then none else some text

abbrev ulid : Text
ulid =
    48 ∷ 49 ∷ 50 ∷ 51 ∷ 52 ∷ 53 ∷ 54 ∷ 55 ∷ 56 ∷ 57 ∷ 48 ∷ 49 ∷ 50 ∷ 51 ∷ 52 ∷ 53 ∷ 54 ∷ 55 ∷ 56
    ∷ 57 ∷ 65 ∷ 66 ∷ 67 ∷ 68 ∷ 69 ∷ 70 ∷ []

decode_refuses : (text : Text) → contains text 61 ≡ true → decode text ≡ none
decode_refuses text h = rw h refl

parse_ulid_timestamp_fails_example : parse_ulid_timestamp decode ulid ≡ decode_failed
parse_ulid_timestamp_fails_example = parse_ulid_timestamp_fails decode decode_refuses ulid
