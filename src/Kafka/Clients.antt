-- ===== src/Kafka/Clients.antt =====
-- A produce request as a client writes it, for pkg/kafka/handlers.go, and how its fields are read.
use portask.Prelude.{
  ℕ, ◌^◌, ◌<◌, ◌≡◌, refl, ap, ◌∙◌, List, [], ◌∷◌, ◌++◌, length, length-append, arith,
}
use portask.Prelude.Bytes.{
  put_uint16_be, put_uint32_be, read_full-append, uint16_be-put, uint32_be-put, take-append,
  drop-append,
}
use portask.Kafka.{Text}
use portask.Kafka.Requests.{zeros, read_some, write_string}
use portask.Kafka.Answers.{read_some_enough}
use portask.Kafka.Produce.{int16_field, int32_field, read_int16, read_int32, or_zeros}

-- A topic of a request, with its partitions and their message sets.
pub record TopicData : Type 0 where
  pub name : Text
  pub sets : List (ℕ × List ℕ)

-- The bytes as a client writes them, before `rest`.
unfoldable pub set_bytes : List (ℕ × List ℕ) → List ℕ → List ℕ
set_bytes [] rest = rest
set_bytes ((partition, set) ∷ sets) rest =
    put_uint32_be partition ++ (put_uint32_be (length set) ++ (set ++ set_bytes sets rest))

unfoldable pub topic_bytes : List TopicData → List ℕ → List ℕ
topic_bytes [] rest = rest
topic_bytes (t ∷ topics) rest =
    write_string t.name
    ++ (put_uint32_be (length t.sets) ++ set_bytes t.sets (topic_bytes topics rest))

-- The fields fit their places.
abbrev pub SetsFit : List (ℕ × List ℕ) → Type 0
SetsFit [] = Unit {0}
SetsFit ((partition, set) ∷ sets) = (partition < 2 ^ 32) × (length set < 2 ^ 31) × SetsFit sets

abbrev pub TopicsFit : List TopicData → Type 0
TopicsFit [] = Unit {0}
TopicsFit (t ∷ topics) =
    (length t.name < 2 ^ 15) × (length t.sets < 2 ^ 31) × SetsFit t.sets × TopicsFit topics

-- The body of a request with these topics, counted as `count`.
unfoldable pub produce_body : ℕ → ℕ → ℕ → List TopicData → List ℕ → List ℕ
produce_body acks timeout count topics rest =
    put_uint16_be acks
    ++ (put_uint32_be timeout ++ (put_uint32_be count ++ topic_bytes topics rest))

-- A topic whose first partition has a message set of a size below zero.
unfoldable pub negative_size : Text → ℕ → ℕ → List ℕ → List ℕ
negative_size name partition size rest =
    write_string name
    ++ (put_uint32_be 1 ++ (put_uint32_be partition ++ (put_uint32_be size ++ rest)))

pub read_int32-put :
    (v : ℕ) (rest : List ℕ) → v < 2 ^ 32 → read_int32 (put_uint32_be v ++ rest) ≡ (v, rest)
unfolding read_int32
read_int32-put v rest h =
    ap int32_field (read_full-append 4 (put_uint32_be v) rest refl)
    ∙ ap (λ (u : ℕ). (u, rest)) (uint32_be-put v h)

pub read_int16-put :
    (v : ℕ) (rest : List ℕ) → v < 2 ^ 16 → read_int16 (put_uint16_be v ++ rest) ≡ (v, rest)
unfolding read_int16
read_int16-put v rest h =
    ap int16_field (read_full-append 2 (put_uint16_be v) rest refl)
    ∙ ap (λ (u : ℕ). (u, rest)) (uint16_be-put v h)

pub read_set :
    (set rest : List ℕ)
    → (or_zeros (length set) (read_some (length set) (set ++ rest)).0 ≡ set)
      × ((read_some (length set) (set ++ rest)).1 ≡ rest)
unfolding read_some zeros
read_set [] [] = (refl, refl)
read_set [] (b ∷ rest) =
    let r = read_some_enough 0 b rest (omega arith) in (ap (λ o. or_zeros 0 o.0) r, ap (λ o. o.1) r)
read_set (x ∷ set) rest =
    let n = length (x ∷ set) in
    let r = read_some_enough n x (set ++ rest) (omega (arith, length-append {0} set rest)) in
    (
      ap (λ o. or_zeros n o.0) r ∙ take-append (x ∷ set) rest,
      ap (λ o. o.1) r ∙ drop-append (x ∷ set) rest,
    )
