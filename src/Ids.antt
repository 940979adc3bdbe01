-- ===== src/Ids.antt =====
-- Identifiers: pkg/types/ulid.go. A text is the list of its bytes, and entropy an argument. The
-- base32 encoding of Go's library is the parameter of the functions that use it.
pub mod Numeric
pub mod Parsing
mod Tests
use portask.Prelude.{
  ℕ, zero, suc, ◌+◌, ◌*◌, ◌/◌, ◌%◌, ◌^◌, ◌==◌, Bool, true, false, if◌then◌else◌, ltb, Option, none,
  some, List, [], ◌∷◌, ◌++◌, length, take,
}

abbrev pub Text : Type 0
Text = List ℕ

-- The loop of `itoa`, with `i` places left in its buffer; a panic is `none`.
unfoldable pub itoa_loop : ℕ → ℕ → Text → Option Text
itoa_loop zero n digits = if n == 0 then some digits else none
itoa_loop (suc i) n digits =
    let rest = itoa_loop i (n / 10) ((n % 10 + 48) ∷ digits) in if n == 0 then some digits else rest

-- `itoa`, with a buffer of 20 places.
unfoldable pub itoa : ℕ → Option Text
itoa n = if n == 0 then some (48 ∷ []) else itoa_loop 20 n []

-- `NumericIDGenerator.Generate`: the id and the new counter.
unfoldable pub generate_numeric : ℕ → Option Text × ℕ
generate_numeric counter = let next = (counter + 1) % 2 ^ 64 in (itoa next, next)

-- The first 6 bytes of a ULID, from the milliseconds.
unfoldable pub time_bytes : ℕ → List ℕ
time_bytes ms =
    ms / 2 ^ 40 % 256
    ∷ ms / 2 ^ 32 % 256
    ∷ ms / 2 ^ 24 % 256
    ∷ ms / 2 ^ 16 % 256
    ∷ ms / 2 ^ 8 % 256
    ∷ ms % 256
    ∷ []

-- `generateULID` and `GenerateWithTimestamp`
unfoldable pub generate_ulid : (List ℕ → Text) → ℕ → List ℕ → Text
generate_ulid encode ms entropy = encode (time_bytes ms ++ entropy)

pub data Parsed : Type 0 where
  parsed_at : ℕ → Parsed
  invalid_ulid decode_failed : Parsed

-- The time of the decoded bytes, fewer than 6 of which are invalid.
unfoldable pub timestamp : List ℕ → Parsed
timestamp (a ∷ b ∷ c ∷ d ∷ e ∷ f ∷ rest) =
    parsed_at (a * 2 ^ 40 + b * 2 ^ 32 + c * 2 ^ 24 + d * 2 ^ 16 + e * 2 ^ 8 + f)
timestamp bytes = invalid_ulid

abbrev pub decoded : Option (List ℕ) → Parsed
decoded none = decode_failed
decoded (some bytes) = timestamp bytes

-- "======"
abbrev pub padding : Text
padding = 61 ∷ 61 ∷ 61 ∷ 61 ∷ 61 ∷ 61 ∷ []

-- `parseULIDTimestamp`
unfoldable pub parse_ulid_timestamp : (Text → Option (List ℕ)) → Text → Parsed
parse_ulid_timestamp decode ulid =
    if length ulid == 26 then decoded (decode (take 10 ulid ++ padding)) else invalid_ulid
