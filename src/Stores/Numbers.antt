-- ===== src/Stores/Numbers.antt =====
-- The offsets that `InMemoryStorage` of pkg/storage/in_memory.go gives to messages.
use portask.Prelude.{
  ◌+◌, ◌^◌, ◌<◌, ◌≡◌, refl, sym, ap, ◌∙◌, subst, ◌⊎◌, inl, inr, Bool-cases, Option, none, some,
  List, [], ◌∷◌, length, arith,
}
use native.Mathlib.Nat.{mod-eq_of_lt}
use portask.Prelude.Maps.{nat_eq, list_eq, find, put, remove, find-put, find-remove}
use portask.Message.{PortaskMessage}
use portask.Stores.{
  Text, Messages, InMemoryStorage, new_in_memory_storage, store, delete, delete_batch,
}

value : PortaskMessage → Option PortaskMessage → PortaskMessage
value d none = d
value d (some m) = m

some-eq : (a b : PortaskMessage) → some a ≡ some b → a ≡ b
unfolding value
some-eq a b e = ap (λ o. value a o) e

find-put_cases :
    (ms : Messages) (k j : Text) (v m : PortaskMessage)
    → find (put ms k v) j ≡ some m
    → ((k ≡ j) × (v ≡ m)) ⊎ (find ms j ≡ some m)
find-put_cases ms k j v m e =
    let f = sym (find-put ms k j v) ∙ e in
    elim (Bool-cases (list_eq.beq k j)) [
      | inl p ↦ inl ((list_eq.beq_iff k j).0 p, some-eq v m (rw p at f))
      | inr p ↦ inr (rw p at f)
    ]

Absent : Option PortaskMessage → Type 0
Absent none = Unit {0}
Absent (some m) = ⊥

find-remove_cases :
    (ms : Messages) (k j : Text) (m : PortaskMessage)
    → find (remove ms k) j ≡ some m
    → find ms j ≡ some m
unfolding Absent
find-remove_cases ms k j m e =
    let f = sym (find-remove ms k j) ∙ e in
    elim (Bool-cases (list_eq.beq k j)) [
      | inl p ↦ absurd (subst Absent (rw p at f) tt)
      | inr p ↦ rw p at f
    ]

-- A message is found by its id, its offset was given out, and no two messages share one.
pub record Numbered (s : InMemoryStorage) : Type 0 where
  pub keyed : (id : Text) (m : PortaskMessage) → find s.messages id ≡ some m → m.id ≡ id
  pub given :
      (id : Text) (m : PortaskMessage) → find s.messages id ≡ some m → m.offset < s.next_offset
  pub distinct :
      (id id' : Text) (m m' : PortaskMessage)
      → find s.messages id ≡ some m
      → find s.messages id' ≡ some m'
      → m.offset ≡ m'.offset
      → id ≡ id'

remove-Numbered :
    (k : Text) (s : InMemoryStorage)
    → Numbered s
    → Numbered (record s { messages = remove s.messages k })
remove-Numbered k s h = record {
  keyed = λ id m e. h.keyed id m (find-remove_cases s.messages k id m e);
  given = λ id m e. h.given id m (find-remove_cases s.messages k id m e);
  distinct = λ id id' m m' e e'.
      h.distinct id id' m m' (find-remove_cases s.messages k id m e)
        (find-remove_cases s.messages k id' m' e');
}

delete_batch-Numbered :
    (ids : List Text) (s : InMemoryStorage) → Numbered s → Numbered (delete_batch ids s)
unfolding delete_batch
delete_batch-Numbered [] s h = h
delete_batch-Numbered (id ∷ ids) s h =
    delete_batch-Numbered ids (record s { messages = remove s.messages id })
      (remove-Numbered id s h)

store-next :
    (x : PortaskMessage) (s : InMemoryStorage)
    → s.next_offset + 1 < 2 ^ 64
    → (store x s).next_offset ≡ s.next_offset + 1
unfolding store
store-next x s l = mod-eq_of_lt l

store-Numbered :
    (x : PortaskMessage) (s : InMemoryStorage)
    → s.next_offset + 1 < 2 ^ 64
    → Numbered s
    → Numbered (store x s)
unfolding store
store-Numbered x s l h = record {
  keyed = λ id m e. elim (find-put_cases s.messages x.id id v m e) [
    | inl (p, q) ↦ ap (λ y. y.id) (sym q) ∙ p
    | inr f ↦ h.keyed id m f
  ];
  given = λ id m e. elim (find-put_cases s.messages x.id id v m e) [
    | inl (p, q) ↦ omega (arith, ap (λ y. y.offset) q, store-next x s l)
    | inr f ↦ omega (arith, h.given id m f, store-next x s l)
  ];
  distinct = λ id id' m m' e e' o. elim (find-put_cases s.messages x.id id v m e) [
    | inl (p, q) ↦ elim (find-put_cases s.messages x.id id' v m' e') [
      | inl (p', q') ↦ sym p ∙ p'
      | inr f' ↦ absurd (omega (arith, ap (λ y. y.offset) q, h.given id' m' f', o))
    ]
    | inr f ↦ elim (find-put_cases s.messages x.id id' v m' e') [
      | inl (p', q') ↦ absurd (omega (arith, ap (λ y. y.offset) q', h.given id m f, o))
      | inr f' ↦ h.distinct id id' m m' f f' o
    ]
  ];
}
  where
    v : PortaskMessage
    v = record x { offset = s.next_offset }

pub data Call : Type 0 where
  stores : PortaskMessage → Call
  deletes : Text → Call
  deletes_batch : List Text → Call

unfoldable pub run_calls : List Call → InMemoryStorage → InMemoryStorage
run_calls [] s = s
run_calls (stores m ∷ calls) s = run_calls calls (store m s)
run_calls (deletes id ∷ calls) s = run_calls calls (delete id s)
run_calls (deletes_batch ids ∷ calls) s = run_calls calls (delete_batch ids s)

delete_batch-next :
    (ids : List Text) (s : InMemoryStorage) → (delete_batch ids s).next_offset ≡ s.next_offset
unfolding delete_batch
delete_batch-next [] s = refl
delete_batch-next (id ∷ ids) s =
    delete_batch-next ids (record s { messages = remove s.messages id })

run_calls_from :
    (calls : List Call) (s : InMemoryStorage)
    → s.next_offset + length calls < 2 ^ 64
    → Numbered s
    → Numbered (run_calls calls s)
unfolding run_calls delete
run_calls_from [] s l h = h
run_calls_from (stores m ∷ calls) s l h =
    let next = store-next m s (omega (arith, l)) in
    run_calls_from calls (store m s) (omega (arith, l, next))
      (store-Numbered m s (omega (arith, l)) h)
run_calls_from (deletes id ∷ calls) s l h =
    run_calls_from calls (record s { messages = remove s.messages id }) (omega (arith, l))
      (remove-Numbered id s h)
run_calls_from (deletes_batch ids ∷ calls) s l h =
    run_calls_from calls (delete_batch ids s) (omega (arith, l, delete_batch-next ids s))
      (delete_batch-Numbered ids s h)

new-Numbered : Numbered new_in_memory_storage
unfolding new_in_memory_storage find Absent
new-Numbered = record {
  keyed = λ id m e. absurd (subst Absent e tt);
  given = λ id m e. absurd (subst Absent e tt);
  distinct = λ id id' m m' e e' o. absurd (subst Absent e tt);
}

-- After any calls of `Store`, `Delete` and `DeleteBatch` on a new `InMemoryStorage`, fewer than
-- 2^64, every stored message is found by its own id, its offset is one that was given out, and no
-- two stored messages have the same offset.
pub run_calls-Numbered :
    (calls : List Call) → length calls < 2 ^ 64 → Numbered (run_calls calls new_in_memory_storage)
unfolding new_in_memory_storage
run_calls-Numbered calls l =
    run_calls_from calls (record { messages = []; next_offset = 0 }) (omega (arith, l)) new-Numbered
