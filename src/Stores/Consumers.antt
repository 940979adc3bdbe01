-- ===== src/Stores/Consumers.antt =====
-- The offsets of consumers in `InMemoryStore` of cmd/server/inmemory_store.go.
use portask.Prelude.{
  ℕ, ◌==◌, ==_iff, ◌≡◌, ◌≢◌, refl, sym, ap, ap₂, ◌∙◌, inl, inr, Bool, true, false, false≢true,
  Bool-cases, if◌then◌else◌, Option, some, List, [], ◌∷◌, ◌++◌, append_assoc,
}
use portask.Prelude.Maps.{nat_eq, list_eq, beq_list, beq_refl, find, put, find-put, find-put_self}
use portask.Stores.{
  Text, InMemoryStore, new_in_memory_store, ConsumerOffset, underscore, offset_key, commit_offset,
  commit_offset_batch, or_start, get_offset,
}

-- A text without `_`.
abbrev pub Plain : Text → Type 0
Plain [] = Unit {0}
Plain (c ∷ text) = (c ≢ underscore) × Plain text

head : Text → ℕ
head [] = 0
head (c ∷ text) = c

tail : Text → Text
tail [] = []
tail (c ∷ text) = text

split_at :
    (xs xs' ys ys' : Text)
    → Plain xs
    → Plain xs'
    → xs ++ underscore ∷ ys ≡ xs' ++ underscore ∷ ys'
    → (xs ≡ xs') × (ys ≡ ys')
unfolding head tail
split_at [] [] ys ys' h h' e = (refl, ap tail e)
split_at [] (x ∷ xs') ys ys' h (n, h') e = absurd (n (sym (ap head e)))
split_at (x ∷ xs) [] ys ys' (n, h) h' e = absurd (n (ap head e))
split_at (x ∷ xs) (y ∷ xs') ys ys' (n, h) (n', h') e =
    let (p, q) = split_at xs xs' ys ys' h h' (ap tail e) in (ap₂ (λ c l. c ∷ l) (ap head e) p, q)

-- The offset is of this consumer, topic and partition.
abbrev pub is_of : ConsumerOffset → Text → Text → ℕ → Bool
is_of o consumer_id topic partition =
    if beq_list o.consumer_id consumer_id
    then if beq_list o.topic topic then o.partition == partition else false
    else false

-- The last offset that was committed for the consumer, topic and partition, or else `d`.
unfoldable pub committed : Text → Text → ℕ → List ConsumerOffset → ConsumerOffset → ConsumerOffset
committed consumer_id topic partition [] d = d
committed consumer_id topic partition (o ∷ os) d =
    committed consumer_id topic partition os (if is_of o consumer_id topic partition then o else d)

abbrev pub AllPlain : List ConsumerOffset → Type 0
AllPlain [] = Unit {0}
AllPlain (o ∷ os) = Plain o.consumer_id × Plain o.topic × AllPlain os

is_of_refl : (o : ConsumerOffset) → is_of o o.consumer_id o.topic o.partition ≡ true
is_of_refl o =
    rw (beq_refl o.consumer_id, beq_refl o.topic) ((==_iff o.partition o.partition).1 refl)

is_of_eq :
    (o : ConsumerOffset) (consumer_id topic : Text) (partition : ℕ)
    → is_of o consumer_id topic partition ≡ true
    → (o.consumer_id ≡ consumer_id) × (o.topic ≡ topic) × (o.partition ≡ partition)
is_of_eq o consumer_id topic partition h =
    elim (Bool-cases (list_eq.beq o.consumer_id consumer_id)) [
      | inr p ↦ absurd (false≢true (rw p at h))
      | inl p ↦ elim (Bool-cases (list_eq.beq o.topic topic)) [
        | inr q ↦ absurd (false≢true (rw (p, q) at h))
        | inl q ↦ (
          (list_eq.beq_iff o.consumer_id consumer_id).0 p,
          (list_eq.beq_iff o.topic topic).0 q,
          (==_iff o.partition partition).0 (rw (p, q) at h),
        )
      ]
    ]

module _ (print : ℕ → Text) (print_injective : (a b : ℕ) → print a ≡ print b → a ≡ b) where
  beq-is_of :
      (o : ConsumerOffset) (consumer_id topic : Text) (partition : ℕ)
      → Plain o.consumer_id
      → Plain o.topic
      → Plain consumer_id
      → Plain topic
      → list_eq.beq
          (offset_key print o.consumer_id o.topic o.partition)
          (offset_key print consumer_id topic partition)
        ≡ is_of o consumer_id topic partition
  unfolding offset_key
  beq-is_of o consumer_id topic partition h k h' k' =
      let key = offset_key print o.consumer_id o.topic o.partition in
      let other = offset_key print consumer_id topic partition in
      elim (Bool-cases (list_eq.beq key other)) [
        | inl p ↦
            let (e, r) =
              split_at o.consumer_id consumer_id (o.topic ++ underscore ∷ print o.partition)
                (topic ++ underscore ∷ print partition) h h' ((list_eq.beq_iff key other).0 p) in
            let (f, n) = split_at o.topic topic (print o.partition) (print partition) k k' r in
            rw (p, sym e, sym f, sym (print_injective o.partition partition n)) (sym (is_of_refl o))
        | inr p ↦ elim (Bool-cases (is_of o consumer_id topic partition)) [
          | inr q ↦ p ∙ sym q
          | inl q ↦
              let (e, f, n) = is_of_eq o consumer_id topic partition q in
              let same : key ≡ other =
                ap (λ c. offset_key print c o.topic o.partition) e
                ∙ ap (λ t. offset_key print consumer_id t o.partition) f
                ∙ ap (λ i. offset_key print consumer_id topic i) n in
              absurd (false≢true (sym p ∙ (list_eq.beq_iff key other).1 same))
        ]
      ]

  or_start-if :
      (b : Bool) (consumer_id topic : Text) (partition : ℕ) (o : ConsumerOffset)
      (r : Option ConsumerOffset)
      → or_start print consumer_id topic partition (if b then some o else r)
        ≡ (if b then o else or_start print consumer_id topic partition r)
  or_start-if true consumer_id topic partition o r = refl
  or_start-if false consumer_id topic partition o r = refl

  get_offset-commit :
      (o : ConsumerOffset) (consumer_id topic : Text) (partition : ℕ) (s : InMemoryStore)
      → Plain o.consumer_id
      → Plain o.topic
      → Plain consumer_id
      → Plain topic
      → get_offset print consumer_id topic partition (commit_offset print o s) ≡ (
          if is_of o consumer_id topic partition
          then o
          else get_offset print consumer_id topic partition s)
  unfolding get_offset commit_offset
  get_offset-commit o consumer_id topic partition s h k h' k' =
      let key = offset_key print consumer_id topic partition in
      ap (λ r. or_start print consumer_id topic partition r)
        (find-put s.offsets (offset_key print o.consumer_id o.topic o.partition) key o
          ∙ ap (λ b. if b then some o else find s.offsets key)
              (beq-is_of o consumer_id topic partition h k h' k'))
      ∙ or_start-if (is_of o consumer_id topic partition) consumer_id topic partition o
          (find s.offsets key)

  get_offset_from :
      (os : List ConsumerOffset) (consumer_id topic : Text) (partition : ℕ) (s : InMemoryStore)
      → AllPlain os
      → Plain consumer_id
      → Plain topic
      → get_offset print consumer_id topic partition (commit_offset_batch print os s)
        ≡ committed consumer_id topic partition os (get_offset print consumer_id topic partition s)
  unfolding commit_offset_batch committed
  get_offset_from [] consumer_id topic partition s h h' k' = refl
  get_offset_from (o ∷ os) consumer_id topic partition s (h, k, hs) h' k' =
      get_offset_from os consumer_id topic partition (commit_offset print o s) hs h' k'
      ∙ ap (λ d. committed consumer_id topic partition os d)
          (get_offset-commit o consumer_id topic partition s h k h' k')

get_offset-new :
    (print : ℕ → Text) (consumer_id topic : Text) (partition : ℕ)
    → get_offset print consumer_id topic partition new_in_memory_store
      ≡ record { consumer_id = consumer_id; topic = topic; partition = partition; offset = 0 }
unfolding get_offset new_in_memory_store find
get_offset-new print consumer_id topic partition = refl

keys_collide :
    (print : ℕ → Text) (x y t : Text) (p : ℕ)
    → offset_key print (x ++ underscore ∷ y) t p ≡ offset_key print x (y ++ underscore ∷ t) p
unfolding offset_key
keys_collide print x y t p =
    append_assoc x (underscore ∷ y) (underscore ∷ (t ++ underscore ∷ print p))
    ∙ ap (λ l. x ++ underscore ∷ l) (sym (append_assoc y (underscore ∷ t) (underscore ∷ print p)))

-- Where no name has an underscore and `%d` prints different numbers differently, `GetOffset` of
-- `InMemoryStore`, after any offsets were committed on a new store, gives the last one that was
-- committed for this consumer, topic and partition, or the offset 0.
pub get_offset-committed :
    (print : ℕ → Text)
    → ((a b : ℕ) → print a ≡ print b → a ≡ b)
    → (os : List ConsumerOffset) (consumer_id topic : Text) (partition : ℕ) → AllPlain os
    → Plain consumer_id
    → Plain topic
    → get_offset print consumer_id topic partition
        (commit_offset_batch print os new_in_memory_store)
      ≡ committed consumer_id topic partition os
          (record { consumer_id = consumer_id; topic = topic; partition = partition; offset = 0 })
get_offset-committed print inj os consumer_id topic partition h h' k' =
    get_offset_from print inj os consumer_id topic partition new_in_memory_store h h' k'
    ∙ ap (λ d. committed consumer_id topic partition os d)
        (get_offset-new print consumer_id topic partition)

-- An offset that is committed for the consumer `x_y` on the topic `z` is what `GetOffset` gives
-- the consumer `x` on the topic `y_z`.
pub get_offset_collides :
    (print : ℕ → Text) (x y : Text) (o : ConsumerOffset) (s : InMemoryStore)
    → o.consumer_id ≡ x ++ underscore ∷ y
    → get_offset print x (y ++ underscore ∷ o.topic) o.partition (commit_offset print o s) ≡ o
unfolding get_offset commit_offset
get_offset_collides print x y o s e =
    let key = offset_key print x (y ++ underscore ∷ o.topic) o.partition in
    let same : offset_key print o.consumer_id o.topic o.partition ≡ key =
      ap (λ c. offset_key print c o.topic o.partition) e
      ∙ keys_collide print x y o.topic o.partition in
    ap (λ r. or_start print x (y ++ underscore ∷ o.topic) o.partition r)
      (ap (λ k. find (put s.offsets k o) key) same ∙ find-put_self s.offsets key o)
