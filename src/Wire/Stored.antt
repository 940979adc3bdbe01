-- ===== src/Wire/Stored.antt =====
-- Which inputs of the handler of pkg/network/protocol.go change the message store.
use portask.Prelude.{
  ℕ, ◌≡◌, refl, ap, sym, ◌⊎◌, inl, inr, List, arith, Bool-cases, ◌==◌, ==_iff, if◌then◌else◌,
}
use portask.Prelude.Bits.{bit_and}
use portask.Wire.Frame.{
  ProtocolHeader, Result, ok, err, Services, Session, message_type_publish, message_type_heartbeat,
}
use portask.Wire.Handler.{
  receive, finish, process_message, dispatch, store_message, after_store, publish_body,
  payload_body, handle_publish, handle_subscribe, handle_fetch, handle_heartbeat, send_response,
  write_message, pong,
}

module _ {M S : Type 0} (sv : Services M S) where
  -- The session's input begins with a publish frame of the message `m`.
  pub record Publishes (s : Session S) (m : M) : Type 0 where
    pub header : ProtocolHeader
    pub payload : List ℕ
    pub rest : List ℕ
    pub body : List ℕ
    pub received : receive sv s.max_size s.input ≡ (ok (header, payload), rest)
    pub is_publish : header.kind ≡ message_type_publish
    pub unpacked : (if bit_and header.flags 1 == 0 then ok payload else sv.gunzip payload) ≡ ok body
    pub decoded : sv.decode body ≡ ok m

  send_response-storage :
      (k : ℕ) (p : List ℕ) (s : Session S) → (send_response sv k p s).1.storage ≡ s.storage
  unfolding send_response write_message
  send_response-storage k p s = ground arith

  after_store-cases :
      (o : Result S) (s : Session S)
      → ((after_store sv o s).1.storage ≡ s.storage) ⊎ (o ≡ ok (after_store sv o s).1.storage)
  unfolding after_store
  after_store-cases (err e) s = inl refl
  after_store-cases (ok storage) s = inr (ap ok (sym (send_response-storage _ _ _)))

  store_message-cases :
      (r : Result M) (s : Session S)
      → ((store_message sv r s).1.storage ≡ s.storage)
        ⊎ ((m : M) × (r ≡ ok m) × (sv.store s.storage m ≡ ok (store_message sv r s).1.storage))
  unfolding store_message
  store_message-cases (err e) s = inl refl
  store_message-cases (ok m) s = elim (after_store-cases (sv.store s.storage m) s) [
    | inl e ↦ inl e
    | inr e ↦ inr (m, refl, e)
  ]

  abbrev PublishesBody : Result (List ℕ) → Session S → S → Type 0
  PublishesBody r s storage =
      (body : List ℕ) × (m : M) × (r ≡ ok body)
      × (sv.decode body ≡ ok m)
      × (sv.store s.storage m ≡ ok storage)

  publish_body-cases :
      (r : Result (List ℕ)) (s : Session S)
      → ((publish_body sv r s).1.storage ≡ s.storage)
        ⊎ PublishesBody r s (publish_body sv r s).1.storage
  unfolding publish_body
  publish_body-cases (err e) s = inl refl
  publish_body-cases (ok body) s = elim (store_message-cases (sv.decode body) s) [
    | inl e ↦ inl e
    | inr (m, d, e) ↦ inr (body, m, refl, d, e)
  ]

  handle_subscribe-storage :
      (p : List ℕ) (s : Session S) → (handle_subscribe sv p s).1.storage ≡ s.storage
  unfolding handle_subscribe send_response write_message
  handle_subscribe-storage p s = ground arith

  handle_fetch-storage : (p : List ℕ) (s : Session S) → (handle_fetch sv p s).1.storage ≡ s.storage
  unfolding handle_fetch send_response write_message
  handle_fetch-storage p s = ground arith

  dispatch-cases :
      (h : ProtocolHeader) (p : List ℕ) (s : Session S)
      → ((dispatch sv h p s).1.storage ≡ s.storage)
        ⊎ ((h.kind ≡ message_type_publish)
            × PublishesBody (payload_body sv h p) s (dispatch sv h p s).1.storage)
  unfolding dispatch handle_publish handle_heartbeat
  dispatch-cases h p s = elim (Bool-cases (h.kind == message_type_publish)) [
    | inl e ↦ rw e (elim (publish_body-cases (payload_body sv h p) s) [
      | inl f ↦ inl f
      | inr f ↦ inr ((==_iff h.kind message_type_publish).0 e, f)
    ])
    | inr e ↦ inl (
        ground (
          arith,
          e,
          handle_subscribe-storage p s,
          handle_fetch-storage p s,
          send_response-storage message_type_heartbeat pong s,
        ))
  ]

  finish-cases :
      (s : Session S) (r : Result (ProtocolHeader × List ℕ)) (rest : List ℕ)
      → receive sv s.max_size s.input ≡ (r, rest)
      → ((finish sv r (record s { input = rest })).1.storage ≡ s.storage)
        ⊎ ((m : M) × Publishes s m
            × (sv.store s.storage m ≡ ok (finish sv r (record s { input = rest })).1.storage))
  unfolding finish payload_body
  finish-cases s (err e) rest g = inl refl
  finish-cases s (ok (h, p)) rest g = elim (dispatch-cases h p (record s { input = rest })) [
    | inl e ↦ inl e
    | inr (k, (body, m, u, d, e)) ↦ inr (
      m,
      record {
        header = h;
        payload = p;
        rest = rest;
        body = body;
        received = g;
        is_publish = k;
        unpacked = u;
        decoded = d;
      },
      e,
    )
  ]

  -- Handling one message leaves the store as it was, or the input began with a valid publish frame
  -- and the store is the result of storing exactly the message that its payload decodes to.
  pub process_message-storage :
      (s : Session S)
      → ((process_message sv s).1.storage ≡ s.storage)
        ⊎ ((m : M) × Publishes s m × (sv.store s.storage m ≡ ok (process_message sv s).1.storage))
  unfolding process_message
  process_message-storage s =
      finish-cases s (receive sv s.max_size s.input).0 (receive sv s.max_size s.input).1 refl
