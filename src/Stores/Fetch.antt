-- ===== src/Stores/Fetch.antt =====
-- What `Fetch` of the stores in memory gives.
use portask.Prelude.{
  ℕ, suc, ◌+◌, ◌-◌, ◌^◌, ◌≤◌, ◌≡◌, sym, subst, ◌↔◌, ◌⊎◌, ◌∙◌, Bool, true, false, Bool-cases,
  false≢true, leb, List, [], ◌∷◌, max, inl, inr, arith,
}
use portask.Prelude.Maps.{nat_eq, list_eq, beq_list, beq_list_iff}
use portask.Message.{PortaskMessage}
use portask.Stores.{
  Text, Messages, InMemoryStorage, wanted, collect, fetch, InMemoryStore, fetch_topic,
}

-- What `Fetch` of `InMemoryStorage` is asked for: the topic, the partition unless it is negative, and
-- an offset that is not smaller.
abbrev pub Wants : Text → ℕ → ℕ → PortaskMessage → Type 0
Wants topic partition offset m =
    (m.topic ≡ topic) × ((2 ^ 31 ≤ partition) ⊎ (m.partition ≡ partition)) × (offset ≤ m.offset)

-- `Picks W n messages l`: `l` is the first `n` of the messages that satisfy `W`, in their order, or
-- all of them where they are fewer.
pub data Picks (W : PortaskMessage → Type 0) : ℕ → Messages → List PortaskMessage → Type 0 where
  enough : {messages : Messages} → Picks W 0 messages []
  no_more : {n : ℕ} → Picks W n [] []
  pick :
      {n : ℕ} {id : Text} {m : PortaskMessage} {messages : Messages} {l : List PortaskMessage}
      → W m
      → Picks W n messages l
      → Picks W (suc n) ((id, m) ∷ messages) (m ∷ l)
  pass :
      {n : ℕ} {id : Text} {m : PortaskMessage} {messages : Messages} {l : List PortaskMessage}
      → ¬ W m
      → Picks W n messages l
      → Picks W n ((id, m) ∷ messages) l

wanted→Wants :
    (topic : Text) (partition offset : ℕ) (m : PortaskMessage)
    → wanted topic partition offset m ≡ true
    → Wants topic partition offset m
unfolding wanted
wanted→Wants topic partition offset m h = elim (Bool-cases (beq_list m.topic topic)) [
  | inr p ↦ absurd (ground (arith, p, h))
  | inl p ↦ elim (Bool-cases (leb (2 ^ 31) partition)) [
    | inl n ↦ ((beq_list_iff m.topic topic).0 p, inl (ground (arith, n)), ground (arith, p, n, h))
    | inr n ↦
        ((beq_list_iff m.topic topic).0 p, inr (ground (arith, p, n, h)), ground (arith, p, n, h))
  ]
]

Wants→wanted :
    (topic : Text) (partition offset : ℕ) (m : PortaskMessage)
    → Wants topic partition offset m
    → wanted topic partition offset m ≡ true
unfolding wanted
Wants→wanted topic partition offset m (t, p, o) =
    rw ((beq_list_iff m.topic topic).1 t) (ground (arith, p, o))

one_more :
    (limit n : ℕ) → leb limit (n + 1) ≡ false → max 1 (limit - n) ≡ suc (max 1 (limit - (n + 1)))
one_more limit n h = ground arith

last_one : (limit n : ℕ) → leb limit (n + 1) ≡ true → max 1 (limit - n) ≡ suc 0
last_one limit n h = ground arith

module _ (want : PortaskMessage → Bool) (W : PortaskMessage → Type 0)
    (decides : (m : PortaskMessage) → (want m ≡ true) ↔ W m) where
  refuses : (m : PortaskMessage) → want m ≡ false → ¬ W m
  refuses m h w = false≢true (sym h ∙ (decides m).1 w)

  collect-Picks :
      (limit n : ℕ) (messages : Messages)
      → Picks W (max 1 (limit - n)) messages (collect want limit n messages)
  unfolding collect
  collect-Picks limit n [] = no_more
  collect-Picks limit n ((id, m) ∷ messages) = elim (Bool-cases (want m)) [
    | inr p ↦ rw p (pass (refuses m p) (collect-Picks limit n messages))
    | inl p ↦ elim (Bool-cases (leb limit (n + 1))) [
      | inl q ↦ rw (p, q, last_one limit n q) (pick ((decides m).0 p) enough)
      | inr q ↦
          rw (p, q, one_more limit n q)
            (pick ((decides m).0 p) (collect-Picks limit (n + 1) messages))
    ]
  ]

  collect_all :
      (limit : ℕ) (messages : Messages)
      → Picks W (max 1 limit) messages (collect want limit 0 messages)
  collect_all limit messages =
      let e : max 1 (limit - 0) ≡ max 1 limit = omega arith in
      subst (λ (n : ℕ). Picks W n messages (collect want limit 0 messages)) e
        (collect-Picks limit 0 messages)

-- `Fetch` of `InMemoryStorage` gives the first messages, in the order of the map, of the topic, the
-- partition if it is not negative, and at least the offset, and `Fetch` of `InMemoryStore` those of
-- the topic, from whatever partition and offset: as many as the limit says, but one also for the
-- limit 0.
pub fetch-Picks :
    (topic : Text) (partition offset limit : ℕ) (s : InMemoryStorage) (t : InMemoryStore)
    → Picks
        (Wants topic partition offset)
        (max 1 limit)
        s.messages
        (fetch topic partition offset limit s)
      × Picks (λ m. m.topic ≡ topic) (max 1 limit) t.messages (fetch_topic topic limit t)
unfolding fetch fetch_topic
fetch-Picks topic partition offset limit s t = (
  collect_all (wanted topic partition offset) (Wants topic partition offset)
      (λ m. (wanted→Wants topic partition offset m, Wants→wanted topic partition offset m)) limit
      s.messages,
  collect_all (λ m. beq_list m.topic topic) (λ m. m.topic ≡ topic) (λ m. beq_list_iff m.topic topic)
      limit t.messages,
)
