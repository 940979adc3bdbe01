-- ===== src/Amqp/Delivery.antt =====
-- Which messages the AMQP server of pkg/amqp/server.go delivers, and in which order.
use portask.Prelude.{
  ℕ, ◌==◌, ◌≡◌, refl, sym, ap, ◌∙◌, true, false, inl, inr, Bool-cases, if◌then◌else◌, Option, none,
  some, List, [], ◌∷◌, ◌++◌, append-nil, append_assoc, length,
}
use portask.Prelude.Maps.{nat_eq, list_eq, beq_list, find, find-put}
use portask.Amqp.{
  Text, ChannelState, Frame, exchange_declare_ok, queue_declare_ok, consume_ok, deliver, Server,
  new_server, channel, send, or_empty, handle_queue_declare, handle_exchange_declare, target_queue,
  published, handle_basic_publish, track, deliver_all, consuming, handle_basic_consume, ack_on,
  handle_basic_ack,
}

pub data Call : Type 0 where
  declares_queue : ℕ → Text → Text → Call
  declares_exchange : ℕ → Text → Text → Call
  publishes : ℕ → Text → List ℕ → Call
  consumes : ℕ → Text → Text → Call
  acks : ℕ → ℕ → Call

unfoldable pub run_call : Call → Server → Server
run_call (declares_queue id name generated) s = handle_queue_declare id name generated s
run_call (declares_exchange id name exchange_type) s =
    handle_exchange_declare id name exchange_type s
run_call (publishes id routing_key body) s = (handle_basic_publish id routing_key body s).1
run_call (consumes id name tag) s = (handle_basic_consume id name tag s).1
run_call (acks id tag) s = (handle_basic_ack id tag s).1

unfoldable pub run_calls : List Call → Server → Server
run_calls [] s = s
run_calls (c ∷ calls) s = run_calls calls (run_call c s)

module _ (name : Text) where
  -- The bodies that were delivered from the queue, not counting redeliveries.
  unfoldable pub delivered : List (ℕ × Frame) → List (List ℕ)
  delivered [] = []
  delivered ((id, deliver tag n false queue body) ∷ frames) =
      let rest = delivered frames in if beq_list queue name then body ∷ rest else rest
  delivered ((id, _) ∷ frames) = delivered frames

  -- The bodies that wait in the queue.
  unfoldable pub waiting : Server → List (List ℕ)
  waiting s = or_empty (find s.queues name)

  -- The body that a call publishes, if it succeeds and goes to the queue.
  unfoldable pub taken : Call → Server → List (List ℕ)
  taken (publishes id routing_key body) s =
      if (handle_basic_publish id routing_key body s).0
      then []
      else if beq_list (target_queue id routing_key s) name
      then body ∷ []
      else []
  taken _ s = []

  unfoldable pub all_taken : List Call → Server → List (List ℕ)
  all_taken [] s = []
  all_taken (c ∷ calls) s = taken c s ++ all_taken calls (run_call c s)

  -- What the queue has let out and what it holds.
  unfoldable pub flow : Server → List (List ℕ)
  flow s = delivered s.sent ++ waiting s

  pub delivered-append :
      (xs ys : List (ℕ × Frame)) → delivered (xs ++ ys) ≡ delivered xs ++ delivered ys
  unfolding delivered
  delivered-append [] ys = refl
  delivered-append ((id, deliver tag n false queue body) ∷ xs) ys =
      elim (Bool-cases (list_eq.beq queue name)) [
        | inl p ↦ rw p (ap (λ l. body ∷ l) (delivered-append xs ys))
        | inr p ↦ rw p (delivered-append xs ys)
      ]
  delivered-append ((id, deliver tag n true queue body) ∷ xs) ys = delivered-append xs ys
  delivered-append ((id, exchange_declare_ok) ∷ xs) ys = delivered-append xs ys
  delivered-append ((id, queue_declare_ok q n) ∷ xs) ys = delivered-append xs ys
  delivered-append ((id, consume_ok tag) ∷ xs) ys = delivered-append xs ys

  delivered-deliver_all :
      (id : ℕ) (queue tag : Text) (messages : List (List ℕ)) (c : ChannelState)
      → delivered (deliver_all id queue tag messages c).1
        ≡ (if beq_list queue name then messages else [])
  unfolding delivered deliver_all
  delivered-deliver_all id queue tag [] c = elim (Bool-cases (list_eq.beq queue name)) [
    | inl p ↦ rw p refl
    | inr p ↦ rw p refl
  ]
  delivered-deliver_all id queue tag (body ∷ messages) c =
      let rest = delivered-deliver_all id queue tag messages (track queue body false c) in
      elim (Bool-cases (list_eq.beq queue name)) [
        | inl p ↦ rw p (ap (λ l. body ∷ l) (rest ∙ rw p refl))
        | inr p ↦ rw p (rest ∙ rw p refl)
      ]

  same_queue :
      (queue : Text) (s : Server) {o : Option (List (List ℕ))}
      → list_eq.beq queue name ≡ true
      → find s.queues queue ≡ o
      → waiting s ≡ or_empty o
  unfolding waiting
  same_queue queue s p e =
      ap (λ q. or_empty (find s.queues q)) (sym ((list_eq.beq_iff queue name).0 p)) ∙ ap or_empty e

  flow-published :
      (o : Option (List (List ℕ))) (queue : Text) (body : List ℕ) (s : Server)
      → find s.queues queue ≡ o
      → flow (published o queue body s).1
        ≡ flow s
          ++ (if (published o queue body s).0
              then []
              else if beq_list queue name
              then body ∷ []
              else [])
  unfolding flow waiting
  flow-published none queue body s e = sym (append-nil _)
  flow-published (some messages) queue body s e = elim (Bool-cases (list_eq.beq queue name)) [
    | inl p ↦
        rw (find-put s.queues queue name (messages ++ body ∷ []), p, same_queue queue s p e)
          (sym (append_assoc (delivered s.sent) messages (body ∷ [])))
    | inr p ↦ rw (find-put s.queues queue name (messages ++ body ∷ []), p) (sym (append-nil _))
  ]

  flow-consuming :
      (o : Option (List (List ℕ))) (id : ℕ) (queue tag : Text) (s : Server)
      → find s.queues queue ≡ o
      → flow (consuming o id queue tag s).1 ≡ flow s
  unfolding flow waiting delivered
  flow-consuming none id queue tag s e = refl
  flow-consuming (some messages) id queue tag s e =
      let c = channel id s in
      let first = if c.next_delivery_tag == 0 then 1 else c.next_delivery_tag in
      let c' = record c { consumer_tag = tag; has_conn = true; next_delivery_tag = first } in
      let frames = (deliver_all id queue tag messages c').1 in
      let sent = delivered-append s.sent ((id, consume_ok tag) ∷ frames) in
      let out = delivered-deliver_all id queue tag messages c' in
      elim (Bool-cases (list_eq.beq queue name)) [
        | inl p ↦
            rw
              (
                sent,
                out,
                find-put s.queues queue name [],
                p,
                append-nil (delivered s.sent ++ messages),
                same_queue queue s p e,
              )
              refl
        | inr p ↦
            rw (sent, out, find-put s.queues queue name [], p, append-nil (delivered s.sent)) refl
      ]

  flow-ack :
      (o : Option ChannelState) (id tag : ℕ) (s : Server) → flow (ack_on o id tag s).1 ≡ flow s
  unfolding flow waiting
  flow-ack none id tag s = refl
  flow-ack (some c) id tag s = refl

  flow-declared :
      (id : ℕ) (given generated : Text) (s : Server)
      → flow (handle_queue_declare id given generated s) ≡ flow s
  unfolding flow waiting handle_queue_declare send delivered
  flow-declared id given generated s =
      let queue = if length given == 0 then generated else given in
      let messages = or_empty (find s.queues queue) in
      let sent = delivered-append s.sent ((id, queue_declare_ok queue (length messages)) ∷ []) in
      elim (Bool-cases (list_eq.beq queue name)) [
        | inl p ↦
            rw
              (
                sent,
                find-put s.queues queue name messages,
                p,
                append-nil (delivered s.sent),
                same_queue queue s p refl,
              )
              refl
        | inr p ↦
            rw (sent, find-put s.queues queue name messages, p, append-nil (delivered s.sent)) refl
      ]

  flow-exchange :
      (id : ℕ) (exchange exchange_type : Text) (s : Server)
      → flow (handle_exchange_declare id exchange exchange_type s) ≡ flow s ++ []
  unfolding flow waiting handle_exchange_declare send delivered
  flow-exchange id exchange exchange_type s =
      rw (delivered-append s.sent ((id, exchange_declare_ok) ∷ []), append-nil (delivered s.sent))
        (sym (append-nil _))

  flow-publish :
      (id : ℕ) (routing_key : Text) (body : List ℕ) (s : Server)
      → flow (handle_basic_publish id routing_key body s).1
        ≡ flow s
          ++ (if (handle_basic_publish id routing_key body s).0
              then []
              else if beq_list (target_queue id routing_key s) name
              then body ∷ []
              else [])
  unfolding handle_basic_publish
  flow-publish id routing_key body s =
      let queue = target_queue id routing_key s in
      elim (Bool-cases (length queue == 0)) [
        | inl p ↦ rw p (sym (append-nil (flow s)))
        | inr p ↦ rw p (flow-published (find s.queues queue) queue body s refl)
      ]

  flow-run_call : (c : Call) (s : Server) → flow (run_call c s) ≡ flow s ++ taken c s
  unfolding run_call taken handle_basic_publish handle_basic_consume handle_basic_ack
  flow-run_call (declares_queue id given generated) s =
      flow-declared id given generated s ∙ sym (append-nil (flow s))
  flow-run_call (declares_exchange id exchange exchange_type) s =
      flow-exchange id exchange exchange_type s
  flow-run_call (publishes id routing_key body) s = flow-publish id routing_key body s
  flow-run_call (consumes id queue tag) s =
      flow-consuming (find s.queues queue) id queue tag s refl ∙ sym (append-nil (flow s))
  flow-run_call (acks id tag) s =
      flow-ack (find s.channel_states id) id tag s ∙ sym (append-nil (flow s))

  pub flow-run_calls :
      (calls : List Call) (s : Server) → flow (run_calls calls s) ≡ flow s ++ all_taken calls s
  unfolding run_calls all_taken
  flow-run_calls [] s = sym (append-nil (flow s))
  flow-run_calls (c ∷ calls) s =
      flow-run_calls calls (run_call c s)
      ∙ ap (λ l. l ++ all_taken calls (run_call c s)) (flow-run_call c s)
      ∙ append_assoc (flow s) (taken c s) (all_taken calls (run_call c s))

-- Whatever is declared, published, consumed and acknowledged on a new server: the bodies that were
-- delivered from a queue, in the order of their delivery, followed by those that wait in it, are
-- exactly the bodies that were published to it with success, each once and in their order.
pub run_calls-fifo :
    (name : Text) (calls : List Call)
    → let s = run_calls calls new_server in
      delivered name s.sent ++ waiting name s ≡ all_taken name calls new_server
unfolding flow new_server delivered waiting find
run_calls-fifo name calls = flow-run_calls name calls new_server
