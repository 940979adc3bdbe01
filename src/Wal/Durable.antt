-- ===== src/Wal/Durable.antt =====
-- What the calls of a `WALWriter` (pkg/storage/wal.go) leave of the segments: files only grow, and
-- a new file has a new number.
use portask.Prelude.{
  ℕ, ◌+◌, ◌<◌, ◌≡◌, refl, sym, ap, ◌∙◌, subst, Bool, true, false, Bool-cases, inl, inr, Option,
  none, some, List, [], ◌∷◌, ◌++◌, append-nil, append_assoc, arith, length, ltb, leb, ◌==◌, ==_iff,
  take,
}
use portask.Wal.{
  WalEntry, WalSegment, WalWriter, EntryIo, BatchItem, Result, ok, err, new_entry, entry_header,
  append_entry, append_entries, then_entries, cons_offset, store_segment, then_append, make_room,
  rotate_segment, write, write_batch, sync, file_of, segments, total_size,
}
use portask.Wal.Reading.{Placed}

-- The segment has the same number, and its file has only been added to.
pub record Grows (s t : WalSegment) : Type 0 where
  pub id_eq : t.id ≡ s.id
  pub added : List ℕ
  pub file_eq : t.file ≡ s.file ++ added

Grows-refl : (s : WalSegment) → Grows s s
Grows-refl s = record { id_eq = refl; added = []; file_eq = sym (append-nil s.file) }

Grows-trans : {s t u : WalSegment} → Grows s t → Grows t u → Grows s u
Grows-trans {s} g h = record {
  id_eq = h.id_eq ∙ g.id_eq;
  added = g.added ++ h.added;
  file_eq = h.file_eq ∙ ap (λ l. l ++ h.added) g.file_eq ∙ append_assoc s.file g.added h.added;
}

append_entry-Grows :
    (io : EntryIo) (e : WalEntry) (s : WalSegment) → Grows s (append_entry io e s).1
unfolding append_entry
append_entry-Grows io e s = elim (Bool-cases (ltb io.header_taken 16)) [
  | inl p ↦
      rw p (record { id_eq = refl; added = take io.header_taken (entry_header e); file_eq = refl })
  | inr p ↦ rw p (elim (Bool-cases (ltb io.data_taken (length e.content))) [
    | inl q ↦ rw q (record {
      id_eq = refl;
      added = entry_header e ++ take io.data_taken e.content;
      file_eq = refl;
    })
    | inr q ↦ rw q (record { id_eq = refl; added = entry_header e ++ e.content; file_eq = refl })
  ])
]

cons_offset-state : (offset : ℕ) (r : Result (List ℕ) × WalSegment) → (cons_offset offset r).1 ≡ r.1
unfolding cons_offset
cons_offset-state offset (ok offsets, s) = refl
cons_offset-state offset (err e, s) = refl

then_entries-Grows :
    (f : WalSegment → Result (List ℕ) × WalSegment) (r : Result ℕ × WalSegment)
    → ((s : WalSegment) → Grows s (f s).1)
    → Grows r.1 (then_entries f r).1
unfolding then_entries
then_entries-Grows f (err e, s) g = Grows-refl s
then_entries-Grows f (ok offset, s) g = subst (Grows s) (sym (cons_offset-state offset (f s))) (g s)

append_entries-Grows :
    (items : List BatchItem) (s : WalSegment) → Grows s (append_entries items s).1
unfolding append_entries
append_entries-Grows [] s = Grows-refl s
append_entries-Grows (i ∷ items) s =
    Grows-trans (append_entry-Grows i.io (new_entry i.now i.content) s) (
      then_entries-Grows (append_entries items) (append_entry i.io (new_entry i.now i.content) s)
        (append_entries-Grows items))

-- No segment has a number that is still to be given out.
abbrev pub AllBelow : ℕ → List WalSegment → Type 0
AllBelow n [] = Unit
AllBelow n (s ∷ segs) = (s.id < n) × AllBelow n segs

AllBelow-suc : (n : ℕ) (segs : List WalSegment) → AllBelow n segs → AllBelow (n + 1) segs
AllBelow-suc n [] a = tt
AllBelow-suc n (s ∷ segs) a = (omega (arith, a.0), AllBelow-suc n segs a.1)

file_of-lt :
    (n : ℕ) (segs : List WalSegment) (id : ℕ) {file : List ℕ}
    → AllBelow n segs
    → file_of segs id ≡ some file
    → id < n
unfolding file_of
file_of-lt n [] id a e = absurd (cc e)
file_of-lt n (s ∷ segs) id a e = elim (Bool-cases (s.id == id)) [
  | inl p ↦ omega (arith, (==_iff s.id id).0 p, a.0)
  | inr p ↦ file_of-lt n segs id a.1 (rw p at e)
]

-- Every entry that stands in the segments of `v` stands in those of `w`, at the same place, and the
-- numbers of `w` are below its next one.
pub record Keeps (v w : WalWriter) : Type 0 where
  pub below : AllBelow v.next_segment_id (segments v) → AllBelow w.next_segment_id (segments w)
  pub placed :
      AllBelow v.next_segment_id (segments v)
      → (id offset : ℕ) (e : WalEntry) → Placed (segments v) id offset e
      → Placed (segments w) id offset e

pub Keeps-trans : {u v w : WalWriter} → Keeps u v → Keeps v w → Keeps u w
Keeps-trans g h = record {
  below = λ a. h.below (g.below a);
  placed = λ a id o e p. h.placed (g.below a) id o e (g.placed a id o e p);
}

Placed-Grows :
    (s t : WalSegment) (older : List WalSegment) (id offset : ℕ) (e : WalEntry)
    → Grows s t
    → Placed (s ∷ older) id offset e
    → Placed (t ∷ older) id offset e
unfolding file_of
Placed-Grows s t older id offset e g p = elim (Bool-cases (s.id == id)) [
  | inl q ↦ record {
    before = p.before;
    after = p.after ++ g.added;
    found = ground (
      arith,
      p.found,
      g.file_eq,
      g.id_eq,
      append_assoc p.before (entry_header e ++ (e.content ++ p.after)) g.added,
      append_assoc (entry_header e) (e.content ++ p.after) g.added,
      append_assoc e.content p.after g.added,
    );
    at_offset = p.at_offset;
  }
  | inr q ↦ record {
    before = p.before;
    after = p.after;
    found = ground (arith, p.found, g.id_eq);
    at_offset = p.at_offset;
  }
]

-- Replacing the current segment by one that has grown.
current-Keeps :
    (w : WalWriter) (t : WalSegment) → Grows w.current t → Keeps w (record w { current = t })
current-Keeps w t g = record {
  below = λ a. (omega (arith, a.0, g.id_eq), a.1);
  placed = λ a id o e p. Placed-Grows w.current t w.older id o e g p;
}

synced-Grows : (s t : WalSegment) (b : Bool) → Grows s t → Grows s (record t { synced = b })
synced-Grows s t b g = record { id_eq = g.id_eq; added = g.added; file_eq = g.file_eq }

store_segment-Keeps :
    {A : Type 0} (w : WalWriter) (r : Result A × WalSegment)
    → Grows w.current r.1
    → Keeps w (store_segment w r).1
unfolding store_segment
store_segment-Keeps w (ok a, s) g =
    current-Keeps w (record s { synced = false }) (synced-Grows w.current s false g)
store_segment-Keeps w (err e, s) g = current-Keeps w s g

rotate_segment-Keeps :
    (opened : Option (List ℕ)) (w : WalWriter) → Keeps w (rotate_segment opened w).1
unfolding rotate_segment file_of
rotate_segment-Keeps (some bytes) w = record {
  below = λ a. (omega arith, AllBelow-suc w.next_segment_id (segments w) a);
  placed = λ a id o e p. record {
    before = p.before;
    after = p.after;
    found =
        let lt = file_of-lt w.next_segment_id (segments w) id a p.found in
        ground (arith, lt, p.found);
    at_offset = p.at_offset;
  };
}
rotate_segment-Keeps none w = record {
  below = λ a. AllBelow-suc w.next_segment_id (segments w) a;
  placed = λ a id o e p. p;
}

pub Keeps-refl : (w : WalWriter) → Keeps w w
Keeps-refl w = record { below = λ a. a; placed = λ a id o e p. p }

pub make_room-Keeps :
    (opened : Option (List ℕ)) (extra : ℕ) (w : WalWriter) → Keeps w (make_room opened extra w).1
unfolding make_room
make_room-Keeps opened extra w =
    elim (Bool-cases (leb w.max_segment_size (w.current.size + extra))) [
      | inl e ↦ rw e (rotate_segment-Keeps opened w)
      | inr e ↦ rw e (Keeps-refl w)
    ]

then_append-Keeps :
    {A : Type 0} (f : WalSegment → Result A × WalSegment) (w : WalWriter)
    (r : Result Unit × WalWriter)
    → ((s : WalSegment) → Grows s (f s).1)
    → Keeps w r.1
    → Keeps w (then_append f r).1
unfolding then_append
then_append-Keeps f w (ok u, v) g k =
    Keeps-trans k (store_segment-Keeps v (f v.current) (g v.current))
then_append-Keeps f w (err e, v) g k = k

pub write-Keeps :
    (opened : Option (List ℕ)) (io : EntryIo) (now : ℕ) (bs : List ℕ) (w : WalWriter)
    → Keeps w (write opened io now bs w).1
unfolding write
write-Keeps opened io now bs w =
    then_append-Keeps (append_entry io (new_entry now bs)) w (make_room opened 0 w)
      (append_entry-Grows io (new_entry now bs)) (make_room-Keeps opened 0 w)

pub write_batch-Keeps :
    (opened : Option (List ℕ)) (items : List BatchItem) (w : WalWriter)
    → Keeps w (write_batch opened items w).1
unfolding write_batch
write_batch-Keeps opened items w =
    then_append-Keeps (append_entries items) w (make_room opened (total_size items) w)
      (append_entries-Grows items) (make_room-Keeps opened (total_size items) w)

pub sync-Keeps : (succeeds : Bool) (w : WalWriter) → Keeps w (sync succeeds w).1
unfolding sync
sync-Keeps true w =
    current-Keeps w (record w.current { synced = true })
      (synced-Grows w.current w.current true (Grows-refl w.current))
sync-Keeps false w = Keeps-refl w
