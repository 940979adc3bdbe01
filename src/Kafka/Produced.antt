-- ===== src/Kafka/Produced.antt =====
-- What `handleProduce` of pkg/kafka/handlers.go makes of a request that a client wrote.
use portask.Prelude.{
  ℕ, suc, ◌+◌, ◌^◌, ◌<◌, ◌≤◌, ◌≡◌, refl, sym, ap, ◌∙◌, append-nil, append_assoc, false, leb,
  leb-true, Option, none, some, List, [], ◌∷◌, ◌++◌, length, arith,
}
use portask.Prelude.Bytes.{put_uint32_be}
use portask.Kafka.{Text}
use portask.Kafka.Requests.{write_string}
use portask.Kafka.Answers.{read_string-write}
use portask.Kafka.Produce.{
  rounds, partition_response, Loop, write_before, produce_partitions, produce_topics, answered,
  handle_produce,
}
use portask.Kafka.Clients.{
  TopicData, set_bytes, topic_bytes, SetsFit, TopicsFit, produce_body, negative_size,
  read_int32-put, read_int16-put, read_set,
}

write_before-nil : {B : Type 0} (l : Loop B) → l ≡ write_before [] l
write_before-nil none = refl
write_before-nil (some (output, rest, b)) = refl

write_before-append :
    {B : Type 0} (x y : List ℕ) (l : Loop B)
    → write_before x (write_before y l) ≡ write_before (x ++ y) l
write_before-append x y none = refl
write_before-append x y (some (output, rest, b)) =
    ap (λ o. some (o, rest, b)) (sym (append_assoc x y output))

module _ {B : Type 0} (produce_one : Text → ℕ → List ℕ → B → Option ℕ × B) where
  -- Every message set is taken once, in order, and answered at its place.
  unfoldable pub sets_produced : Text → List (ℕ × List ℕ) → B → List ℕ × B
  sets_produced topic [] b = ([], b)
  sets_produced topic ((partition, set) ∷ sets) b =
      let (offset, b') = produce_one topic partition set b in
      let (output, b'') = sets_produced topic sets b' in
      (partition_response partition offset ++ output, b'')

  unfoldable pub topics_produced : List TopicData → B → List ℕ × B
  topics_produced [] b = ([], b)
  topics_produced (t ∷ topics) b =
      let (output, b') = sets_produced t.name t.sets b in
      let (outputs, b'') = topics_produced topics b' in
      ((write_string t.name ++ put_uint32_be (length t.sets)) ++ (output ++ outputs), b'')

  produce_partitions-sets :
      (topic : Text) (sets : List (ℕ × List ℕ)) (rest : List ℕ) (b : B)
      → SetsFit sets
      → ◌≡◌ {A = Loop B}
          (produce_partitions produce_one topic (length sets) (set_bytes sets rest) b)
          (some ((sets_produced topic sets b).0, rest, (sets_produced topic sets b).1))
  unfolding produce_partitions set_bytes sets_produced
  produce_partitions-sets topic [] rest b fit = refl
  produce_partitions-sets topic ((partition, set) ∷ sets) rest b (p, l, fit) =
      let tail = set_bytes sets rest in
      let (taken, left) = read_set set tail in
      let small : leb (2 ^ 31) (length set) ≡ false = ground (arith, l) in
      rw
        (
          read_int32-put partition (put_uint32_be (length set) ++ (set ++ tail)) p,
          read_int32-put (length set) (set ++ tail) (omega (arith, l)),
          taken,
          left,
          small,
        )
        (ap (write_before (partition_response partition (produce_one topic partition set b).0))
          (produce_partitions-sets topic sets rest (produce_one topic partition set b).1 fit))

  -- The topics of a client, before `n` more.
  produce_topics-topics :
      (topics : List TopicData) (n : ℕ) (rest : List ℕ) (b : B)
      → TopicsFit topics
      → produce_topics produce_one (length topics + n) (topic_bytes topics rest) b
        ≡ write_before
            (topics_produced topics b).0
            (produce_topics produce_one n rest (topics_produced topics b).1)
  unfolding produce_topics topic_bytes topics_produced rounds
  produce_topics-topics [] n rest b fit =
      let same : 0 + n ≡ n = omega arith in
      ap (λ k. produce_topics produce_one k rest b) same
      ∙ write_before-nil (produce_topics produce_one n rest b)
  produce_topics-topics (t ∷ topics) n rest b (name, count, sets, fit) =
      let more : suc (length topics) + n ≡ suc (length topics + n) = omega arith in
      let tail = topic_bytes topics rest in
      let src = put_uint32_be (length t.sets) ++ set_bytes t.sets tail in
      let (text, left) = read_string-write t.name src name in
      let small : leb (2 ^ 31) (length t.sets) ≡ false = ground (arith, count) in
      let (output, b') = sets_produced t.name t.sets b in
      ap (λ k. produce_topics produce_one k (write_string t.name ++ src) b) more
      ∙ rw
          (
            text,
            left,
            read_int32-put (length t.sets) (set_bytes t.sets tail) (omega (arith, count)),
            small,
            produce_partitions-sets t.name t.sets tail b sets,
          )
          (let head = write_string t.name ++ put_uint32_be (length t.sets) in
            let outputs = (topics_produced topics b').0 in
            let last = produce_topics produce_one n rest (topics_produced topics b').1 in
            ap (λ l. write_before head (write_before output l))
              (produce_topics-topics topics n rest b' fit)
            ∙ ap (write_before head) (write_before-append output outputs last)
            ∙ write_before-append head (output ++ outputs) last)

  handle_produce-body :
      (acks timeout count : ℕ) (topics : List TopicData) (rest : List ℕ) (b : B)
      → acks < 2 ^ 16
      → timeout < 2 ^ 32
      → count < 2 ^ 31
      → handle_produce produce_one (produce_body acks timeout count topics rest) b
        ≡ answered produce_one (
            write_before
              (put_uint32_be 0 ++ put_uint32_be count)
              (produce_topics produce_one count (topic_bytes topics rest) b))
  unfolding handle_produce produce_body rounds
  handle_produce-body acks timeout count topics rest b h k c =
      let topics' = put_uint32_be count ++ topic_bytes topics rest in
      let small : leb (2 ^ 31) count ≡ false = ground (arith, c) in
      rw
        (
          read_int16-put acks (put_uint32_be timeout ++ topics') h,
          read_int32-put timeout topics' k,
          read_int32-put count (topic_bytes topics rest) (omega (arith, c)),
          small,
        )
        refl

  produce_topics-negative_size :
      (name : Text) (partition size : ℕ) (rest : List ℕ) (b : B)
      → length name < 2 ^ 15
      → partition < 2 ^ 32
      → 2 ^ 31 ≤ size
      → size < 2 ^ 32
      → produce_topics produce_one 1 (negative_size name partition size rest) b ≡ none
  unfolding produce_topics produce_partitions negative_size rounds
  produce_topics-negative_size name partition size rest b h p l k =
      let bytes = put_uint32_be size ++ rest in
      let src = put_uint32_be 1 ++ (put_uint32_be partition ++ bytes) in
      let (text, left) = read_string-write name src h in
      rw
        (
          text,
          left,
          read_int32-put 1 (put_uint32_be partition ++ bytes) (omega arith),
          read_int32-put partition bytes p,
          read_int32-put size rest k,
          leb-true (2 ^ 31) size l,
        )
        refl

  -- A request for any topics with any partitions and message sets, whose fields fit their places:
  -- `handleProduce` takes every message set once, in order, and answers each at its place with its base
  -- offset or the error 3. A further topic whose first message set has a size below zero makes it panic.
  pub handle_produce-topics :
      (acks timeout : ℕ) (topics : List TopicData) (rest : List ℕ) (name : Text)
      (partition size : ℕ) (b : B)
      → acks < 2 ^ 16
      → timeout < 2 ^ 32
      → length topics + 1 < 2 ^ 31
      → TopicsFit topics
      → length name < 2 ^ 15
      → partition < 2 ^ 32
      → 2 ^ 31 ≤ size
      → size < 2 ^ 32
      → ◌≡◌ {A = Option (List ℕ × B)}
          (handle_produce produce_one (produce_body acks timeout (length topics) topics rest) b)
          (some (
            (put_uint32_be 0 ++ put_uint32_be (length topics)) ++ (topics_produced topics b).0,
            (topics_produced topics b).1,
          ))
        × (handle_produce produce_one
              (produce_body acks timeout
                (length topics + 1)
                topics
                (negative_size name partition size rest))
              b
            ≡ none)
  unfolding produce_topics
  handle_produce-topics acks timeout topics rest name partition size b h k c fit n p l u =
      let count : length topics + 0 ≡ length topics = omega arith in
      let (output, b') = topics_produced topics b in
      let head = λ (m : ℕ). put_uint32_be 0 ++ put_uint32_be m in
      (
        handle_produce-body acks timeout (length topics) topics rest b h k (omega (arith, c))
            ∙ ap (λ o. answered produce_one (write_before (head (length topics)) o))
                (sym (ap (λ m. produce_topics produce_one m (topic_bytes topics rest) b) count)
                  ∙ produce_topics-topics topics 0 rest b fit)
            ∙ ap (λ o. some (head (length topics) ++ o, b')) (append-nil output),
        handle_produce-body acks timeout (length topics + 1) topics
              (negative_size name partition size rest) b h k c
            ∙ ap (λ o. answered produce_one (write_before (head (length topics + 1)) o))
                (produce_topics-topics topics 1 (negative_size name partition size rest) b fit
                  ∙ ap (write_before output)
                      (produce_topics-negative_size name partition size rest b' n p l u)),
      )
