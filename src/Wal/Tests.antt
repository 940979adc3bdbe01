-- ===== src/Wal/Tests.antt =====
-- Runs of the checksum and the writer of pkg/storage/wal.go, and the theorems at concrete writers.
use portask.Prelude.{ℕ, ◌≡◌, refl, true, none, some, List, [], ◌∷◌, arith}
use portask.Wal.{
  WalWriter, EntryIo, ok, new_entry, new_wal_writer, write, segments, read_entry, make_room,
  then_append, append_entry, store_segment,
}
use portask.Wal.Crc.{crc32_checksum}
use portask.Wal.Reading.{FitsEntry}
use portask.Wal.Calls.{
  IsConsistent, run_calls, WalCall, write_call, batch_call, sync_call, write_durable,
}

-- The check value of CRC-32: the checksum of "123456789".
crc_check_value : crc32_checksum (49 ∷ 50 ∷ 51 ∷ 52 ∷ 53 ∷ 54 ∷ 55 ∷ 56 ∷ 57 ∷ []) ≡ 0xCBF43926
unfolding crc32_checksum
crc_check_value = refl

abbrev whole : EntryIo
whole = record { header_taken = 16; data_taken = 100 }

abbrev writer : WalWriter
writer = new_wal_writer [] 40

writer-IsConsistent : IsConsistent writer
unfolding new_wal_writer
writer-IsConsistent = record { size_eq = refl; below = omega arith }

abbrev body : List ℕ
body = 104 ∷ 105 ∷ []

body-FitsEntry : FitsEntry 7 body
body-FitsEntry = record {
  time_fits = omega arith;
  length_fits = omega arith;
  are_bytes = omega arith;
}

first_write : (write (some []) whole 7 body writer).0 ≡ ok 0
unfolding write make_room new_wal_writer then_append append_entry store_segment new_entry
first_write = refl

-- Later calls fill the segment, go on in a new one, and fail.
abbrev later : List WalCall
later =
    write_call (some []) whole 8 body
    ∷ write_call (some []) whole 9 body
    ∷ write_call (some (1 ∷ 2 ∷ [])) whole 10 body
    ∷ write_call none (record whole { data_taken = 1 }) 11 body
    ∷ sync_call true
    ∷ batch_call (some []) (record { io = whole; now = 12; content = body } ∷ [])
    ∷ []

write_durable_example :
    let w' = (write (some []) whole 7 body writer).1 in
    IsConsistent w'
    × (read_entry (segments (run_calls later w')) w'.current.id 0 ≡ ok (new_entry 7 body))
write_durable_example =
    write_durable (some []) whole 7 body writer 0 later refl writer-IsConsistent body-FitsEntry
      first_write
