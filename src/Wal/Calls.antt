-- ===== src/Wal/Calls.antt =====
-- Calls of a `WALWriter` (pkg/storage/wal.go) one after another: what an acknowledged write is worth,
-- and what a write that is taken in part does to the offsets that follow.
use portask.Prelude.{
  ℕ, ◌+◌, ◌<◌, ◌≡◌, refl, sym, ap, ◌∙◌, Bool, false, Option, none, some, List, [], ◌∷◌, ◌++◌,
  append-nil, arith, length, length-append, length-take, take, ==_iff, subst,
}
use portask.Wal.{
  WalEntry, WalSegment, WalWriter, EntryIo, BatchItem, Result, ok, err, new_entry, entry_header,
  append_entry, store_segment, then_append, make_room, rotate_segment, write, write_batch, sync,
  file_of, segments, read_entry,
}
use portask.Wal.Reading.{Placed, FitsEntry, read_entry-Placed, length-entry_header}
use portask.Wal.Durable.{
  Keeps, Keeps-trans, Keeps-refl, AllBelow, write-Keeps, write_batch-Keeps, sync-Keeps,
  make_room-Keeps,
}

pub data WalCall : Type 0 where
  write_call : Option (List ℕ) → EntryIo → ℕ → List ℕ → WalCall
  batch_call : Option (List ℕ) → List BatchItem → WalCall
  sync_call : Bool → WalCall

pub run_call : WalCall → WalWriter → WalWriter
run_call (write_call opened io now bs) w = (write opened io now bs w).1
run_call (batch_call opened items) w = (write_batch opened items w).1
run_call (sync_call succeeds) w = (sync succeeds w).1

pub run_calls : List WalCall → WalWriter → WalWriter
run_calls [] w = w
run_calls (c ∷ cs) w = run_calls cs (run_call c w)

run_call-Keeps : (c : WalCall) (w : WalWriter) → Keeps w (run_call c w)
unfolding run_call
run_call-Keeps (write_call opened io now bs) w = write-Keeps opened io now bs w
run_call-Keeps (batch_call opened items) w = write_batch-Keeps opened items w
run_call-Keeps (sync_call succeeds) w = sync-Keeps succeeds w

run_calls-Keeps : (cs : List WalCall) (w : WalWriter) → Keeps w (run_calls cs w)
unfolding run_calls
run_calls-Keeps [] w = Keeps-refl w
run_calls-Keeps (c ∷ cs) w = Keeps-trans (run_call-Keeps c w) (run_calls-Keeps cs (run_call c w))

-- The writer's sizes are those of its files, and its numbers are below the next one.
pub record IsConsistent (w : WalWriter) : Type 0 where
  pub size_eq : w.current.size ≡ length w.current.file
  pub below : AllBelow w.next_segment_id (segments w)

-- A file that this opens holds nothing yet.
abbrev pub IsNew : Option (List ℕ) → Type 0
IsNew none = Unit
IsNew (some bytes) = bytes ≡ []

pub make_room-IsConsistent :
    (opened : Option (List ℕ)) (extra : ℕ) (w : WalWriter)
    → IsNew opened
    → IsConsistent w
    → IsConsistent (make_room opened extra w).1
unfolding make_room rotate_segment
make_room-IsConsistent none extra w n c = record {
  size_eq = ground (arith, c.size_eq);
  below = (make_room-Keeps none extra w).below c.below;
}
make_room-IsConsistent (some bytes) extra w n c = record {
  size_eq = ground (arith, c.size_eq, n);
  below = (make_room-Keeps (some bytes) extra w).below c.below;
}

-- A segment with an entry put behind what its file holds.
abbrev appended : WalEntry → WalSegment → WalSegment
appended e s = record s {
  file = s.file ++ (entry_header e ++ e.content);
  size = s.size + (16 + length e.content);
}

append_entry-ok :
    (io : EntryIo) (e : WalEntry) (s : WalSegment) {offset : ℕ}
    → (append_entry io e s).0 ≡ ok offset
    → (append_entry io e s ≡ (ok s.size, appended e s)) × (s.size ≡ offset)
unfolding append_entry
append_entry-ok io e s h = ground arith

store_segment-result :
    {A : Type 0} (w : WalWriter) (r : Result A × WalSegment) → (store_segment w r).0 ≡ r.0
unfolding store_segment
store_segment-result w (ok a, s) = refl
store_segment-result w (err e, s) = refl

Placed-appended :
    (e : WalEntry) (s : WalSegment) (older : List WalSegment)
    → s.size ≡ length s.file
    → Placed (record (appended e s) { synced = false } ∷ older) s.id s.size e
unfolding file_of
Placed-appended e s older z = record {
  before = s.file;
  after = [];
  found = rw ((==_iff s.id s.id).1 refl, append-nil);
  at_offset = sym z;
}

IsConsistent-appended :
    (e : WalEntry) (w : WalWriter)
    → IsConsistent w
    → IsConsistent (record w { current = record (appended e w.current) { synced = false } })
IsConsistent-appended e w c = record {
  size_eq = omega (
    arith,
    c.size_eq,
    length-append {0} w.current.file (entry_header e ++ e.content),
    length-append {0} (entry_header e) e.content,
    length-entry_header e,
  );
  below = c.below;
}

-- What a write that succeeds leaves.
abbrev Wrote : WalEntry → ℕ → WalWriter → Type 0
Wrote e offset w = IsConsistent w × Placed (segments w) w.current.id offset e

then_append-Wrote :
    (io : EntryIo) (e : WalEntry) (r : Result Unit × WalWriter) (offset : ℕ)
    → IsConsistent r.1
    → (then_append (append_entry io e) r).0 ≡ ok offset
    → Wrote e offset (then_append (append_entry io e) r).1
unfolding then_append
then_append-Wrote io e (err x, w) offset c h = absurd (cc h)
then_append-Wrote io e (ok u, w) offset c h =
    let (eq, at) =
      append_entry-ok io e w.current
        (sym (store_segment-result w (append_entry io e w.current)) ∙ h) in
    rw (eq, store_segment)
      (
        IsConsistent-appended e w c,
        subst
            (λ (o : ℕ).
              Placed (record (appended e w.current) { synced = false } ∷ w.older) w.current.id o e)
            at (Placed-appended e w.current w.older c.size_eq),
      )

-- Once `Write` has returned an offset, `ReadEntry` of the segment it wrote to returns exactly that
-- entry from there, after any further calls of the writer, failed ones included, whatever the files
-- that these open hold; and the writer is consistent again. The data are bytes, fewer than 2^32, the
-- time is below 2^64, the writer was consistent before, and a file that the write itself opens holds
-- nothing yet.
pub write_durable :
    (opened : Option (List ℕ)) (io : EntryIo) (now : ℕ) (bs : List ℕ) (w : WalWriter) (offset : ℕ)
    (cs : List WalCall)
    → IsNew opened
    → IsConsistent w
    → FitsEntry now bs
    → (write opened io now bs w).0 ≡ ok offset
    → let w' = (write opened io now bs w).1 in
      IsConsistent w'
      × (read_entry (segments (run_calls cs w')) w'.current.id offset ≡ ok (new_entry now bs))
unfolding write
write_durable opened io now bs w offset cs n c f h =
    let (c', p) =
      then_append-Wrote io (new_entry now bs) (make_room opened 0 w) offset
        (make_room-IsConsistent opened 0 w n c) h in
    let w' = (then_append (append_entry io (new_entry now bs)) (make_room opened 0 w)).1 in
    (
      c',
      read_entry-Placed now bs f (segments (run_calls cs w')) w'.current.id offset
          ((run_calls-Keeps cs w').placed c'.below w'.current.id offset (new_entry now bs) p),
    )

-- The writer that a write leaves when only `n` bytes of its header are taken.
abbrev pub after_short : ℕ → EntryIo → ℕ → List ℕ → WalWriter → WalWriter
after_short n io now bs w = (write (some []) (record io { header_taken = n }) now bs w).1

module _ (n : ℕ) (io : EntryIo) (now : ℕ) (bs : List ℕ) (w : WalWriter) (c : IsConsistent w)
    (short : n < 16) (room : w.current.size < w.max_segment_size) where
  short_header :
      let w' = after_short n io now bs w in
      (length w'.current.file ≡ w'.current.size + n) × (w'.current.size < w'.max_segment_size)
  unfolding write make_room then_append store_segment append_entry
  short_header = ground (
    arith,
    c.size_eq,
    length-append {0} w.current.file (take n (entry_header (new_entry now bs))),
    length-take {0} n (entry_header (new_entry now bs)),
    length-entry_header (new_entry now bs),
  )

make_room-none :
    (opened : Option (List ℕ)) (w : WalWriter)
    → w.current.size < w.max_segment_size
    → make_room opened 0 w ≡ (ok tt, w)
unfolding make_room
make_room-none opened w room = ground arith

next_offset :
    (io : EntryIo) (now : ℕ) (bs : List ℕ) (w : WalWriter) {offset : ℕ}
    → w.current.size < w.max_segment_size
    → (write (some []) io now bs w).0 ≡ ok offset
    → w.current.size ≡ offset
unfolding write then_append
next_offset io now bs w room h =
    let f = append_entry io (new_entry now bs) in
    (append_entry-ok io (new_entry now bs) w.current (
      sym (store_segment-result w (f w.current))
      ∙ ap (λ r. (then_append f r).0) (sym (make_room-none (some []) w room))
      ∙ h)).1

-- When a write of a consistent writer fails because only `n` bytes of its header are taken, the next
-- write that succeeds in that segment returns an offset that is `n` bytes short of the end of the
-- file, where its entry begins.
pub short_header_shifts :
    (n : ℕ) (io io' : EntryIo) (now now' : ℕ) (bs bs' : List ℕ) (w : WalWriter) (offset : ℕ)
    → IsConsistent w
    → n < 16
    → w.current.size < w.max_segment_size
    → (write (some []) io' now' bs' (after_short n io now bs w)).0 ≡ ok offset
    → length (after_short n io now bs w).current.file ≡ offset + n
short_header_shifts n io io' now now' bs bs' w offset c short room h =
    let (longer, room') = short_header n io now bs w c short room in
    omega (arith, longer, next_offset io' now' bs' (after_short n io now bs w) room' h)
