-- ===== src/Message/Size.antt =====
-- Sizes of messages and batches (`GetSize`, `Add` and `GetTotalSize` of pkg/types/message.go).
use portask.Prelude.{ℕ, ◌+◌, ◌<◌, ◌≡◌, refl, ap, ◌∙◌, List, [], ◌∷◌, arith, lt→ltb}
use portask.Message.{
  Text, PortaskMessage, MessageBatch, estimated_size, get_size, add, size_all, get_total_size,
  new_message_batch,
}

-- The sum of the sizes that `GetSize` gives the messages one by one.
pub sum_sizes : List PortaskMessage → ℕ
sum_sizes [] = 0
sum_sizes (m ∷ messages) = (get_size m).0 + sum_sizes messages

get_size_pos : (m : PortaskMessage) → 0 < (get_size m).0
unfolding get_size estimated_size
get_size_pos m = ground arith

size_all-sum : (messages : List PortaskMessage) → (size_all messages).0 ≡ sum_sizes messages
unfolding size_all sum_sizes
size_all-sum [] = refl
size_all-sum (m ∷ messages) = ap (λ n. (get_size m).0 + n) (size_all-sum messages)

pub add_all : List PortaskMessage → MessageBatch → MessageBatch
add_all [] b = b
add_all (m ∷ messages) b = add_all messages (add m b)

add_all-total :
    (messages : List PortaskMessage) (b : MessageBatch)
    → (add_all messages b).total_size ≡ b.total_size + sum_sizes messages
unfolding add_all sum_sizes add
add_all-total [] b = omega arith
add_all-total (m ∷ messages) b = omega (arith, add_all-total messages (add m b))

add_all_pos :
    (m : PortaskMessage) (messages : List PortaskMessage) (b : MessageBatch)
    → 0 < (add_all (m ∷ messages) b).total_size
unfolding sum_sizes
add_all_pos m messages b = omega (arith, add_all-total (m ∷ messages) b, get_size_pos m)

zero_plus : (n : ℕ) → 0 + n ≡ n
zero_plus n = omega arith

-- The size that a batch of the messages `first` reports once `added` have been added.
pub reported : List PortaskMessage → List PortaskMessage → ℕ
reported first [] = sum_sizes first
reported first (m ∷ added) = sum_sizes (m ∷ added)

-- A batch made of some messages, to which others are added, reports the sizes of the added ones
-- only, if there are any: those that it was made of are left out.
pub get_total_size-add_all :
    (id : Text) (now : ℕ) (first added : List PortaskMessage)
    → (get_total_size (add_all added (new_message_batch id now first))).0 ≡ reported first added
unfolding get_total_size reported new_message_batch
get_total_size-add_all id now first [] = unfold add_all in size_all-sum first
get_total_size-add_all id now first (m ∷ added) =
    let b = add_all (m ∷ added) (new_message_batch id now first) in
    rw (lt→ltb 0 b.total_size (add_all_pos m added (new_message_batch id now first))) (
      add_all-total (m ∷ added) (new_message_batch id now first)
      ∙ zero_plus (sum_sizes (m ∷ added)))
