-- ===== src/Kafka/Fetches.antt =====
-- What `ConsumeMessages` of pkg/kafka/protocol.go gives.
use portask.Prelude.{
  ℕ, zero, suc, ◌+◌, ◌%◌, ◌^◌, ◌≤◌, ◌<◌, ◌≡◌, refl, sym, ap, ◌∙◌, Bool, true, false, false≢true,
  inl, inr, ◌⊎◌, Bool-cases, if◌then◌else◌, ltb, leb, leb→le, leb-true, Option, none, some, List,
  [], ◌∷◌, ◌++◌, length, drop, arith,
}
use portask.Prelude.Maps.{nat_eq, list_eq, find}
use portask.Kafka.{Text}
use portask.Kafka.Log.{
  Message, InMemoryTopic, new_in_memory_message_store, ok, panic, gt_int32, collect, consume_from,
  consumed, consume_messages,
}
use portask.Kafka.Views.{view-history}
use portask.Kafka.History.{Call, run_calls, Entry, number, numbered, view_of, view, history}

-- The bytes of the values.
unfoldable pub bytes : List Message → ℕ
bytes [] = 0
bytes (m ∷ msgs) = length m.value + bytes msgs

-- The results of a fetch: the first of the messages, one if there is any, and more only as long as
-- their values fit, but all that fit.
pub record Fetched (max_bytes : ℕ) (msgs result : List Message) : Type 0 where
  pub rest : List Message
  pub joins : result ++ rest ≡ msgs
  pub one : (msgs ≡ []) ⊎ (0 < length result)
  pub fits : (bytes result ≤ max_bytes) ⊎ (length result ≤ 1)
  pub full :
      (rest ≡ [])
      ⊎ ((m : Message) × (l : List Message) × (rest ≡ m ∷ l)
          × (max_bytes < bytes result + length m.value))

-- The results of the loop after `size` bytes, where there were results if `more` holds.
record Loop (size : ℕ) (more : Bool) (max_bytes : ℕ) (msgs result : List Message) : Type 0 where
  rest : List Message
  joins : result ++ rest ≡ msgs
  one : (more ≡ true) ⊎ (msgs ≡ []) ⊎ (0 < length result)
  fits : (size + bytes result ≤ max_bytes) ⊎ (length result ≤ (if more then 0 else 1))
  full :
      (rest ≡ [])
      ⊎ ((m : Message) × (l : List Message) × (rest ≡ m ∷ l)
          × (max_bytes < size + bytes result + length m.value))

gt_int32-ltb : (a b : ℕ) → a < 2 ^ 31 → b < 2 ^ 31 → gt_int32 a b ≡ ltb b a
gt_int32-ltb a b h k = ground arith

no_bytes : (l : List Message) → length l ≤ 0 → bytes l ≡ 0
unfolding bytes
no_bytes [] h = refl
no_bytes (m ∷ l) h = absurd (omega (arith, h))

last_fits :
    (size n max_bytes : ℕ) {b : ℕ}
    → ltb max_bytes (size + n) ≡ false
    → b ≡ 0
    → size + (n + b) ≤ max_bytes
last_fits size n max_bytes h e = ground arith

over : (max_bytes s : ℕ) → ltb max_bytes s ≡ true → max_bytes < s
over max_bytes s h = ground arith

-- One more result, whose value is the last that fits or the first of all.
one_more :
    (size : ℕ) (more : Bool) (max_bytes : ℕ) (m : Message) (msgs result : List Message)
    → (ltb max_bytes (size + length m.value) ≡ true → more ≡ false)
    → Loop (size + length m.value) true max_bytes msgs result
    → Loop size more max_bytes (m ∷ msgs) (m ∷ result)
unfolding bytes
one_more size more max_bytes m msgs result h r = record {
  rest = r.rest;
  joins = ap (λ l. m ∷ l) r.joins;
  one = inr (inr (omega arith));
  fits = elim r.fits [
    | inl f ↦ inl (omega (arith, f))
    | inr z ↦ elim (Bool-cases (ltb max_bytes (size + length m.value))) [
      | inl over ↦ rw (h over) (inr (omega (arith, z)))
      | inr under ↦ inl (last_fits size (length m.value) max_bytes under (no_bytes result z))
    ]
  ];
  full = elim r.full [ inl e ↦ inl e | inr (x, l, e, f) ↦ inr (x, l, e, omega (arith, f)) ];
}

-- The first message that does not fit ends the loop.
stops :
    (size max_bytes : ℕ) (m : Message) (msgs : List Message)
    → max_bytes < size + length m.value
    → Loop size true max_bytes (m ∷ msgs) []
unfolding bytes
stops size max_bytes m msgs h = record {
  rest = m ∷ msgs;
  joins = refl;
  one = inl refl;
  fits = inr (omega arith);
  full = inr (m, msgs, refl, omega (arith, h));
}

collect-Loop :
    (size : ℕ) (more : Bool) (max_bytes : ℕ) (msgs : List Message)
    → max_bytes < 2 ^ 31
    → size + bytes msgs < 2 ^ 31
    → Loop size more max_bytes msgs (collect size more max_bytes msgs)
unfolding bytes collect
collect-Loop size more max_bytes [] h k = record {
  rest = [];
  joins = refl;
  one = inr (inl refl);
  fits = inr (omega arith);
  full = inl refl;
}
collect-Loop size more max_bytes (m ∷ msgs) h k =
    let s = size + length m.value in
    let whole : s % 2 ^ 32 ≡ s = omega (arith, k) in
    let test = gt_int32-ltb s max_bytes (omega (arith, k)) h in
    let r = collect-Loop s true max_bytes msgs h (omega (arith, k)) in
    elim (Bool-cases (ltb max_bytes s)) [
      | inr q ↦
          rw (whole, test, q)
            (one_more size more max_bytes m msgs _ (λ p. absurd (false≢true (sym q ∙ p))) r)
      | inl q ↦ elim (Bool-cases more) [
        | inr e ↦ rw (whole, test, q, e) (one_more size false max_bytes m msgs _ (λ p. refl) r)
        | inl e ↦ rw (whole, test, q, e) (stops size max_bytes m msgs (over max_bytes s q))
      ]
    ]

bytes-drop : (n : ℕ) (msgs : List Message) → bytes (drop n msgs) ≤ bytes msgs
unfolding bytes
bytes-drop zero msgs = omega arith
bytes-drop (suc n) [] = omega arith
bytes-drop (suc n) (m ∷ msgs) = omega (arith, bytes-drop n msgs)

drop_past : (n : ℕ) (msgs : List Message) → length msgs ≤ n → drop n msgs ≡ []
drop_past zero [] h = refl
drop_past zero (m ∷ msgs) h = absurd (omega (arith, h))
drop_past (suc n) [] h = refl
drop_past (suc n) (m ∷ msgs) h = drop_past n msgs (omega (arith, h))

Loop-Fetched :
    (max_bytes : ℕ) (msgs result : List Message)
    → Loop 0 false max_bytes msgs result
    → Fetched max_bytes msgs result
Loop-Fetched max_bytes msgs result r = record {
  rest = r.rest;
  joins = r.joins;
  one = elim r.one [ inl e ↦ absurd (false≢true e) | inr o ↦ o ];
  fits = elim r.fits [ inl f ↦ inl (omega (arith, f)) | inr f ↦ inr f ];
  full = elim r.full [ inl e ↦ inl e | inr (x, l, e, f) ↦ inr (x, l, e, omega (arith, f)) ];
}

consume_from-Fetched :
    (msgs : List Message) (offset max_bytes : ℕ)
    → offset < 2 ^ 63
    → max_bytes < 2 ^ 31
    → bytes msgs < 2 ^ 31
    → (result : List Message) × (consume_from msgs offset max_bytes ≡ ok result)
      × Fetched max_bytes (drop offset msgs) result
unfolding consume_from bytes
consume_from-Fetched msgs offset max_bytes h k b =
    let valid : leb (2 ^ 63) offset ≡ false = ground arith in
    elim (Bool-cases (leb (length msgs) offset)) [
      | inl p ↦ (
        [],
        rw (valid, p) refl,
        rw (drop_past offset msgs (leb→le (length msgs) offset p)) (record {
          rest = [];
          joins = refl;
          one = inl refl;
          fits = inl (omega arith);
          full = inl refl;
        }),
      )
      | inr p ↦ (
        collect 0 false max_bytes (drop offset msgs),
        rw (valid, p) refl,
        Loop-Fetched max_bytes (drop offset msgs) _ (
            collect-Loop 0 false max_bytes (drop offset msgs) k
              (omega (arith, b, bytes-drop offset msgs))),
      )
    ]

consume_from-panic :
    (msgs : List Message) (offset max_bytes : ℕ)
    → 2 ^ 63 ≤ offset
    → consume_from msgs offset max_bytes ≡ panic
unfolding consume_from
consume_from-panic msgs offset max_bytes h = rw (leb-true (2 ^ 63) offset h) refl

consumed-view :
    (o : Option InMemoryTopic) (partition offset max_bytes : ℕ) (msgs : List Message)
    → view_of partition o ≡ some msgs
    → consumed o partition offset max_bytes ≡ consume_from msgs offset max_bytes
consumed-view none partition offset max_bytes msgs e = cc
consumed-view (some t) partition offset max_bytes msgs e =
    ap (λ m. consume_from m offset max_bytes) (cc e)

-- After any calls on a new store that leave a topic with entries in a partition, `ConsumeMessages`
-- gives its messages from the offset on, each at the offset that is its place: at least one if there
-- is any, no more than fit in the bytes that are asked for, and all that fit. The values are shorter
-- than 2^31 bytes altogether. An offset below zero panics.
pub consume-history :
    (calls : List Call) (topic : Text) (partition offset negative max_bytes : ℕ)
    (entries : List Entry)
    → history topic partition calls none ≡ some entries
    → offset < 2 ^ 63
    → 2 ^ 63 ≤ negative
    → max_bytes < 2 ^ 31
    → bytes (number 0 entries) < 2 ^ 31
    → let s = run_calls calls new_in_memory_message_store in
      (consume_messages topic partition negative max_bytes s ≡ panic)
      × ((result : List Message) × (consume_messages topic partition offset max_bytes s ≡ ok result)
          × Fetched max_bytes (drop offset (number 0 entries)) result)
unfolding consume_messages view
consume-history calls topic partition offset negative max_bytes entries e h n k b =
    let s = run_calls calls new_in_memory_message_store in
    let v = view-history topic partition calls ∙ ap numbered e in
    let (result, c, f) = consume_from-Fetched (number 0 entries) offset max_bytes h k b in
    (
      consumed-view (find s topic) partition negative max_bytes (number 0 entries) v
          ∙ consume_from-panic (number 0 entries) negative max_bytes n,
      (result, consumed-view (find s topic) partition offset max_bytes (number 0 entries) v ∙ c, f),
    )
