-- ===== src/Kafka/Produce.antt =====
-- `handleProduce`, `handleCreateTopics` and `handleDeleteTopics` of pkg/kafka/handlers.go, on the body
-- of a request. A field that cannot be read is 0, and what a slice does not get stays zero. A panic is
-- `none`. What becomes of one message set is a parameter: it gives the base offset, or fails, and the
-- new state.
use portask.Prelude.{
  ℕ, zero, suc, ◌/◌, ◌-◌, ◌^◌, if◌then◌else◌, leb, Option, none, some, List, [], ◌++◌,
}
use portask.Prelude.Bytes.{
  put_uint16_be, uint16_be, put_uint32_be, uint32_be, ReadResult, complete, eof, unexpected_eof,
  read_full,
}
use portask.Kafka.{Text}
use portask.Kafka.Log.{MessageStore, create_topic, delete_topic}
use portask.Kafka.Requests.{zeros, read_some, read_string, write_string, or_no_id}

abbrev pub put_uint64_be : ℕ → List ℕ
put_uint64_be v = put_uint32_be (v / 2 ^ 32) ++ put_uint32_be v

abbrev pub int16_field : ReadResult → ℕ × List ℕ
int16_field (complete bytes rest) = (uint16_be bytes, rest)
int16_field eof = (0, [])
int16_field unexpected_eof = (0, [])

abbrev pub int32_field : ReadResult → ℕ × List ℕ
int32_field (complete bytes rest) = (uint32_be bytes, rest)
int32_field eof = (0, [])
int32_field unexpected_eof = (0, [])

-- `binary.Read` into a variable that is 0.
unfoldable pub read_int16 : List ℕ → ℕ × List ℕ
read_int16 src = int16_field (read_full 2 src)

unfoldable pub read_int32 : List ℕ → ℕ × List ℕ
read_int32 src = int32_field (read_full 4 src)

-- How often a loop up to an int32 runs.
unfoldable pub rounds : ℕ → ℕ
rounds count = if leb (2 ^ 31) count then 0 else count

abbrev pub or_zeros : ℕ → Option Text → List ℕ
or_zeros size none = zeros size
or_zeros size (some bytes) = bytes

-- The response for a partition: the error 3, unknown topic or partition, without an offset.
abbrev pub base_offset : Option ℕ → List ℕ
base_offset none = put_uint16_be 3 ++ put_uint64_be (2 ^ 64 - 1)
base_offset (some offset) = put_uint16_be 0 ++ put_uint64_be offset

unfoldable pub partition_response : ℕ → Option ℕ → List ℕ
partition_response partition offset =
    put_uint32_be partition
    ++ base_offset offset
    ++ put_uint64_be (2 ^ 64 - 1)
    ++ put_uint64_be (2 ^ 64 - 1)

-- The output of a loop, what is left of the request, and the state.
abbrev pub Loop : Type 0 → Type 0
Loop B = Option (List ℕ × List ℕ × B)

module _ {B : Type 0} where
  abbrev pub write_before : List ℕ → Loop B → Loop B
  write_before bytes none = none
  write_before bytes (some (output, rest, b)) = some (bytes ++ output, rest, b)

  module _ (produce_one : Text → ℕ → List ℕ → B → Option ℕ × B) where
    -- The loop over the partitions of a topic.
    unfoldable pub produce_partitions : Text → ℕ → List ℕ → B → Loop B
    produce_partitions topic zero src b = some ([], src, b)
    produce_partitions topic (suc n) src b =
        let (partition, src1) = read_int32 src in
        let (size, src2) = read_int32 src1 in
        let (set, src3) = read_some size src2 in
        let (offset, b') = produce_one topic partition (or_zeros size set) b in
        let others = produce_partitions topic n src3 b' in
        if leb (2 ^ 31) size
        then none
        else write_before (partition_response partition offset) others

    abbrev pub with_partitions : (List ℕ → B → Loop B) → Loop B → Loop B
    with_partitions next none = none
    with_partitions next (some (output, rest, b)) = write_before output (next rest b)

    -- The loop over the topics.
    unfoldable pub produce_topics : ℕ → List ℕ → B → Loop B
    produce_topics zero src b = some ([], src, b)
    produce_topics (suc n) src b =
        let (topic, src1) = read_string src in
        let (count, src2) = read_int32 src1 in
        write_before (write_string (or_no_id topic) ++ put_uint32_be count) (
          with_partitions (produce_topics n)
            (produce_partitions (or_no_id topic) (rounds count) src2 b))

    abbrev pub answered : Loop B → Option (List ℕ × B)
    answered none = none
    answered (some (output, rest, b)) = some (output, b)

    -- `handleProduce`
    unfoldable pub handle_produce : List ℕ → B → Option (List ℕ × B)
    handle_produce body b =
        let (required_acks, src1) = read_int16 body in
        let (timeout, src2) = read_int32 src1 in
        let (count, src3) = read_int32 src2 in
        answered (
          write_before (put_uint32_be 0 ++ put_uint32_be count)
            (produce_topics (rounds count) src3 b))

unfoldable pub create_topics : ℕ → List ℕ → MessageStore → List ℕ × MessageStore
create_topics zero src s = ([], s)
create_topics (suc n) src s =
    let (topic, src1) = read_string src in
    let (partitions, src2) = read_int32 src1 in
    let (replication, src3) = read_int16 src2 in
    let (assignments, src4) = read_int32 src3 in
    let (configs, src5) = read_int32 src4 in
    let s' = create_topic (or_no_id topic) (rounds partitions) s in
    let (output, s'') = create_topics n src5 s' in
    (write_string (or_no_id topic) ++ put_uint16_be 0 ++ write_string [] ++ output, s'')

-- `handleCreateTopics`
unfoldable pub handle_create_topics : List ℕ → MessageStore → List ℕ × MessageStore
handle_create_topics body s =
    let (count, src) = read_int32 body in
    let (output, s') = create_topics (rounds count) src s in
    (put_uint32_be 0 ++ put_uint32_be count ++ output, s')

unfoldable pub delete_topics : ℕ → List ℕ → MessageStore → List ℕ × MessageStore
delete_topics zero src s = ([], s)
delete_topics (suc n) src s =
    let (topic, src1) = read_string src in
    let (output, s') = delete_topics n src1 (delete_topic (or_no_id topic) s) in
    (write_string (or_no_id topic) ++ put_uint16_be 0 ++ output, s')

-- `handleDeleteTopics`
unfoldable pub handle_delete_topics : List ℕ → MessageStore → List ℕ × MessageStore
handle_delete_topics body s =
    let (count, src) = read_int32 body in
    let (output, s') = delete_topics (rounds count) src s in
    (put_uint32_be 0 ++ put_uint32_be count ++ output, s')
