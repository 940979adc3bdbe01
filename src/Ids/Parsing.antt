-- ===== src/Ids/Parsing.antt =====
-- What `parseULIDTimestamp` of pkg/types/ulid.go makes of a text.
use portask.Prelude.{
  ℕ, ◌==◌, ◌≡◌, refl, ap, ◌∙◌, Bool, true, false, ◌||◌, if◌then◌else◌, Option, none, List, ◌++◌,
  length, take,
}
use portask.Prelude.Maps.{nat_eq, contains, contains-append}
use portask.Ids.{Text, invalid_ulid, decode_failed, decoded, padding, parse_ulid_timestamp}

or_true : (b : Bool) → (b || true) ≡ true
or_true true = refl
or_true false = refl

padded : (text : Text) → contains (text ++ padding) 61 ≡ true
unfolding contains
padded text = contains-append text padding 61 ∙ or_true (contains text 61)

-- With a decoder that refuses a text with a `=`, which is not in its alphabet, as Go's base32 without
-- padding does, `parseULIDTimestamp` fails for every text: for one of another length than 26 as an
-- invalid ULID, otherwise as its decoder does.
pub parse_ulid_timestamp_fails :
    (decode : Text → Option (List ℕ))
    → ((text : Text) → contains text 61 ≡ true → decode text ≡ none)
    → (ulid : Text)
    → parse_ulid_timestamp decode ulid ≡ (if length ulid == 26 then decode_failed else invalid_ulid)
unfolding parse_ulid_timestamp
parse_ulid_timestamp_fails decode refuses ulid =
    ap (λ o. if length ulid == 26 then decoded o else invalid_ulid)
      (refuses (take 10 ulid ++ padding) (padded (take 10 ulid)))
