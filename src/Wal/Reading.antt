-- ===== src/Wal/Reading.antt =====
-- `ReadEntry` of pkg/storage/wal.go where a file holds an entry as `Write` writes it.
use portask.Prelude.{ℕ, ◌%◌, ◌^◌, ◌<◌, ◌≡◌, refl, sym, ap, ◌∙◌, some, List, ◌++◌, arith, length}
use portask.Prelude.Bytes.{uint_le-put, read_full, read_full-append, drop-append_past}
use portask.Wal.Crc.{crc32_checksum, crc32_checksum-lt, AllBytes}
use portask.Wal.{
  WalEntry, WalSegment, ok, new_entry, entry_header, file_of, parse_entry, read_data, read_at,
  read_entry,
}

-- What `Write` can put down and `ReadEntry` can read: the numbers fit their places.
pub record FitsEntry (now : ℕ) (bs : List ℕ) : Type 0 where
  pub time_fits : now < 2 ^ 64
  pub length_fits : length bs < 2 ^ 32
  pub are_bytes : AllBytes bs

-- The segment `id` holds the entry at an offset.
pub record Placed (segs : List WalSegment) (id offset : ℕ) (e : WalEntry) : Type 0 where
  pub before : List ℕ
  pub after : List ℕ
  pub found : file_of segs id ≡ some (before ++ (entry_header e ++ (e.content ++ after)))
  pub at_offset : length before ≡ offset

pub length-entry_header : (e : WalEntry) → length (entry_header e) ≡ 16
unfolding entry_header
length-entry_header e = refl

entry_path :
    (d e : WalEntry)
    → d.timestamp ≡ e.timestamp
    → d.size ≡ e.size
    → d.checksum ≡ e.checksum
    → record d { content = e.content } ≡ e
entry_path d e p q r =
    λ i. record { timestamp = p i; size = q i; checksum = r i; content = e.content }

read_data-entry :
    (d : WalEntry) (bs after : List ℕ)
    → d.size ≡ length bs
    → d.checksum ≡ crc32_checksum bs
    → read_data d (bs ++ after) ≡ ok (record d { content = bs })
unfolding read_data
read_data-entry d bs after p q = ground (arith, q, read_full-append d.size bs after (sym p))

module _ (now : ℕ) (bs : List ℕ) (f : FitsEntry now bs) where
  parsed : WalEntry
  parsed = parse_entry (entry_header (new_entry now bs))

  parsed-timestamp : parsed.timestamp ≡ now
  unfolding parsed parse_entry entry_header new_entry
  parsed-timestamp = uint_le-put 8 now f.time_fits

  parsed-size : parsed.size ≡ length bs
  unfolding parsed parse_entry entry_header new_entry
  parsed-size = uint_le-put 4 (length bs % 2 ^ 32) (omega arith) ∙ omega (arith, f.length_fits)

  parsed-checksum : parsed.checksum ≡ crc32_checksum bs
  unfolding parsed parse_entry entry_header new_entry
  parsed-checksum = uint_le-put 4 (crc32_checksum bs) (crc32_checksum-lt bs f.are_bytes)

  pub read_at-entry :
      (after : List ℕ)
      → read_at (read_full 16 (entry_header (new_entry now bs) ++ (bs ++ after)))
        ≡ ok (new_entry now bs)
  unfolding read_at parsed new_entry
  read_at-entry after =
      rw
        (read_full-append 16 (entry_header (new_entry now bs)) (bs ++ after)
          (length-entry_header (new_entry now bs)))
        (read_data-entry parsed bs after parsed-size parsed-checksum
          ∙ ap ok (
              entry_path parsed (new_entry now bs) parsed-timestamp
                (parsed-size ∙ omega (arith, f.length_fits)) parsed-checksum))

  -- Where a segment holds an entry as it is written, `ReadEntry` returns that entry.
  pub read_entry-Placed :
      (segs : List WalSegment) (id offset : ℕ)
      → Placed segs id offset (new_entry now bs)
      → read_entry segs id offset ≡ ok (new_entry now bs)
  unfolding read_entry new_entry
  read_entry-Placed segs id offset p =
      rw (p.found, read_entry)
        (ap (λ l. read_at (read_full 16 l)) (drop-append_past p.before _ offset (sym p.at_offset))
          ∙ read_at-entry p.after)
