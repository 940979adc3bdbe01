-- ===== src/Wal.antt =====
-- The write-ahead log of pkg/storage/wal.go. A segment's file is the list of its bytes. The
-- operating system's part in a call is an argument: what a file that is opened holds
-- already (nothing where it does not open), and how many bytes of each write it takes; a write that is not taken whole returns an error, as os.File does.
-- The map of segments is the current one and the older ones; sizes are numbers below 2^63.
pub mod Crc
pub mod Reading
pub mod Durable
pub mod Calls
mod Tests
use portask.Prelude.{
  ℕ, zero, suc, ◌+◌, ◌-◌, ◌%◌, ◌^◌, Bool, true, false, Option, none, some, List, [], ◌∷◌, ◌++◌,
  length, take, drop, ltb, leb, ◌==◌, if◌then◌else◌,
}
use portask.Prelude.Bytes.{
  put_uint_le, uint_le, ReadResult, complete, eof, unexpected_eof, read_full,
}
use portask.Wal.Crc.{crc32_checksum}

-- `WALEntry`
pub record WalEntry : Type 0 where
  pub timestamp : ℕ
  pub size : ℕ
  pub checksum : ℕ
  pub content : List ℕ

-- `WALSegment`: `file` is what its file holds, `size` is the field `Size`.
pub record WalSegment : Type 0 where
  pub id : ℕ
  pub file : List ℕ
  pub size : ℕ
  pub synced : Bool

-- `WALWriter`
pub record WalWriter : Type 0 where
  pub max_segment_size : ℕ
  pub current : WalSegment
  pub older : List WalSegment
  pub next_segment_id : ℕ

pub data WalError : Type 0 where
  rotate_failed write_header_failed write_data_failed sync_failed : WalError
  segment_not_found read_header_failed read_data_failed checksum_mismatch : WalError

pub data Result (A : Type 0) : Type 0 where
  ok : A → Result A
  err : WalError → Result A

-- What the operating system does with the two writes of an entry.
pub record EntryIo : Type 0 where
  pub header_taken : ℕ
  pub data_taken : ℕ

-- The entry of `data` at a time, and the 16 bytes of its header.
pub new_entry : ℕ → List ℕ → WalEntry
new_entry now bs = record {
  timestamp = now;
  size = length bs % 2 ^ 32;
  checksum = crc32_checksum bs;
  content = bs;
}

pub entry_header : WalEntry → List ℕ
entry_header e = put_uint_le 8 e.timestamp ++ (put_uint_le 4 e.size ++ put_uint_le 4 e.checksum)

-- `rotateSegment`: the number is used up also where the file does not open. The file is opened to
-- append to and is not truncated, so it keeps what it holds, and the size begins at 0 all the same.
pub rotate_segment : Option (List ℕ) → WalWriter → Result Unit × WalWriter
rotate_segment none w = (err rotate_failed, record w { next_segment_id = w.next_segment_id + 1 })
rotate_segment (some bytes) w = (
  ok tt,
  record w {
    current = record { id = w.next_segment_id; file = bytes; size = 0; synced = true };
    older = w.current ∷ w.older;
    next_segment_id = w.next_segment_id + 1;
  },
)

-- The part of `Write` and `WriteBatch` that writes an entry and returns its offset.
pub append_entry : EntryIo → WalEntry → WalSegment → Result ℕ × WalSegment
append_entry io e s =
    if ltb io.header_taken 16
    then (
      err write_header_failed,
      record s { file = s.file ++ take io.header_taken (entry_header e) },
    )
    else if ltb io.data_taken (length e.content)
    then (
      err write_data_failed,
      record s { file = s.file ++ (entry_header e ++ take io.data_taken e.content) },
    )
    else (
      ok s.size,
      record s {
        file = s.file ++ (entry_header e ++ e.content);
        size = s.size + (16 + length e.content);
      },
    )

-- `newWALWriter` before its first rotation would have no segment; this is what it returns when the
-- first file opens and holds `bytes`.
pub new_wal_writer : List ℕ → ℕ → WalWriter
new_wal_writer bytes max_size = record {
  max_segment_size = max_size;
  current = record { id = 0; file = bytes; size = 0; synced = true };
  older = [];
  next_segment_id = 1;
}

-- The rotation at the start of `Write` and `WriteBatch`, which need `extra` bytes.
pub make_room : Option (List ℕ) → ℕ → WalWriter → Result Unit × WalWriter
make_room opened extra w =
    if leb w.max_segment_size (w.current.size + extra) then rotate_segment opened w else (ok tt, w)

-- Put the current segment back, marked as not synced where the call has succeeded.
pub store_segment : {A : Type 0} → WalWriter → Result A × WalSegment → Result A × WalWriter
store_segment w (ok a, s) = (ok a, record w { current = record s { synced = false } })
store_segment w (err e, s) = (err e, record w { current = s })

pub then_append :
    {A : Type 0}
    → (WalSegment → Result A × WalSegment)
    → Result Unit × WalWriter
    → Result A × WalWriter
unfolding store_segment
then_append f (ok u, w) = store_segment w (f w.current)
then_append f (err e, w) = (err e, w)

-- `Write`
pub write : Option (List ℕ) → EntryIo → ℕ → List ℕ → WalWriter → Result ℕ × WalWriter
unfolding then_append
write opened io now bs w = then_append (append_entry io (new_entry now bs)) (make_room opened 0 w)

-- An entry of a batch, with its time and the system's part.
pub record BatchItem : Type 0 where
  pub io : EntryIo
  pub now : ℕ
  pub content : List ℕ

pub cons_offset : ℕ → Result (List ℕ) × WalSegment → Result (List ℕ) × WalSegment
cons_offset offset (ok offsets, s) = (ok (offset ∷ offsets), s)
cons_offset offset (err e, s) = (err e, s)

pub then_entries :
    (WalSegment → Result (List ℕ) × WalSegment)
    → Result ℕ × WalSegment
    → Result (List ℕ) × WalSegment
unfolding cons_offset
then_entries f (err e, s) = (err e, s)
then_entries f (ok offset, s) = cons_offset offset (f s)

-- The loop of `WriteBatch`.
pub append_entries : List BatchItem → WalSegment → Result (List ℕ) × WalSegment
unfolding then_entries
append_entries [] s = (ok [], s)
append_entries (i ∷ items) s =
    then_entries (append_entries items) (append_entry i.io (new_entry i.now i.content) s)

pub total_size : List BatchItem → ℕ
total_size [] = 0
total_size (i ∷ items) = 16 + length i.content + total_size items

-- `WriteBatch`
pub write_batch : Option (List ℕ) → List BatchItem → WalWriter → Result (List ℕ) × WalWriter
unfolding then_append
write_batch opened items w =
    then_append (append_entries items) (make_room opened (total_size items) w)

-- `Sync`, which fails where the file's own fails.
pub sync : Bool → WalWriter → Result Unit × WalWriter
sync succeeds w =
    if succeeds
    then (ok tt, record w { current = record w.current { synced = true } })
    else (err sync_failed, w)

-- The file of a segment, as `loadSegments` finds it.
pub file_of : List WalSegment → ℕ → Option (List ℕ)
file_of [] id = none
file_of (s ∷ segments) id = if s.id == id then some s.file else file_of segments id

abbrev pub segments : WalWriter → List WalSegment
segments w = w.current ∷ w.older

-- `ReadEntry`, from its read of the data on, of the header on, and whole.
pub check_data : WalEntry → ReadResult → Result WalEntry
check_data e (complete bs rest) =
    if crc32_checksum bs == e.checksum
    then ok (record e { content = bs })
    else err checksum_mismatch
check_data e eof = err read_data_failed
check_data e unexpected_eof = err read_data_failed

pub parse_entry : List ℕ → WalEntry
parse_entry bs = record {
  timestamp = uint_le (take 8 bs);
  size = uint_le (take 4 (drop 8 bs));
  checksum = uint_le (take 4 (drop 12 bs));
  content = [];
}

pub read_data : WalEntry → List ℕ → Result WalEntry
unfolding check_data
read_data e rest = check_data e (read_full e.size rest)

pub read_at : ReadResult → Result WalEntry
unfolding read_data
read_at (complete bs rest) = read_data (parse_entry bs) rest
read_at eof = err read_header_failed
read_at unexpected_eof = err read_header_failed

pub read_entry : List WalSegment → ℕ → ℕ → Result WalEntry
unfolding read_at
read_entry segs id offset = elim (file_of segs id) [
  | none ↦ err segment_not_found
  | some file ↦ read_at (read_full 16 (drop offset file))
]
