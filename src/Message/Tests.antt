-- ===== src/Message/Tests.antt =====
-- Runs of pkg/types/message.go at concrete inputs, and the theorems at them.
use portask.Prelude.{◌≡◌, refl, List, [], ◌∷◌, none, inl, arith}
use portask.Message.{
  estimated_size, headers_size, PortaskMessage, new_message, get_size, is_expired, text,
}
use portask.Message.Expiry.{
  Setter, priority, time_to_live, header, apply_all, deadline_passed, last_ttl, next_ttl,
  is_expired-apply_all,
}

abbrev order : PortaskMessage
order = new_message (105 ∷ []) 1000 (111 ∷ []) (1 ∷ 2 ∷ 3 ∷ [])

order-size : (get_size order).0 ≡ 133
unfolding get_size new_message estimated_size headers_size
order-size = refl

abbrev setters : List Setter
setters = time_to_live 50 ∷ priority 9 ∷ header (104 ∷ []) (text (118 ∷ [])) ∷ time_to_live 20 ∷ []

is_expired-apply_all_example :
    is_expired 1021 (apply_all (new_message (105 ∷ []) 1000 (111 ∷ []) []) setters)
    ≡ deadline_passed 1000 1021 (last_ttl none setters)
unfolding last_ttl next_ttl
is_expired-apply_all_example =
    is_expired-apply_all (105 ∷ []) (111 ∷ []) [] 1000 1021 setters (omega arith) (omega arith)
      (omega arith) (omega arith, inl (omega arith), λ e. omega (arith, e))
