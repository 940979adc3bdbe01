-- ===== src/Amqp/Nack.antt =====
-- What a negative acknowledgement does in pkg/amqp/server.go.
use portask.Prelude.{
  ℕ, ◌==◌, ◌≡◌, refl, sym, ap, ◌∙◌, true, false, ◌&&◌, not, if◌then◌else◌, Bool, inl, inr,
  Bool-cases, some, List, [], ◌∷◌, ◌++◌, append-nil, append_assoc, length,
}
use portask.Prelude.Maps.{nat_eq, list_eq, find, put, find-put_self}
use portask.Amqp.{
  Text, UnackedMsg, ChannelState, Frame, deliver, Server, or_new, or_empty, channel, send, track,
  acked, requeued, handle_basic_nack,
}
use portask.Amqp.Delivery.{
  Call, run_calls, delivered, waiting, all_taken, flow, delivered-append, flow-run_calls,
}

-- The frame that sends the message to the channel's consumer again, under the next delivery tag.
unfoldable pub redelivery : ℕ → ChannelState → UnackedMsg → List (ℕ × Frame)
redelivery id c m =
    if c.has_conn && not (length c.consumer_tag == 0)
    then (id, deliver c.consumer_tag c.next_delivery_tag true m.queue_name m.body) ∷ []
    else []

-- What a negative acknowledgement leaves: the message is outstanding on the channel again, and it
-- waits in its queue too.
record Doubles (id : ℕ) (c : ChannelState) (m : UnackedMsg) (s : Server) (out : Bool × Server)
    : Type 0 where
  succeeds : out.0 ≡ false
  sends : out.1.sent ≡ s.sent ++ redelivery id c m
  outstanding :
      find (channel id out.1).unacked_messages c.next_delivery_tag
      ≡ some (record m { redelivered = true })
  flows : flow m.queue_name out.1 ≡ flow m.queue_name s ++ m.body ∷ []

requeued-outstanding :
    (id : ℕ) (c : ChannelState) (m : UnackedMsg) (messages : List (List ℕ)) (s : Server)
    → find
        (channel id (record s {
          queues = put s.queues m.queue_name (messages ++ m.body ∷ []);
          channel_states = put s.channel_states id (track m.queue_name m.body true c);
        })).unacked_messages
        c.next_delivery_tag
      ≡ some (record m { redelivered = true })
unfolding track channel
requeued-outstanding id c m messages s =
    ap (λ o. find (or_new o).unacked_messages c.next_delivery_tag)
      (find-put_self s.channel_states id (track m.queue_name m.body true c))
    ∙ find-put_self c.unacked_messages c.next_delivery_tag
        (record { queue_name = m.queue_name; body = m.body; redelivered = true })

-- A redelivery is not counted, and the queue holds one body more.
requeued-flow :
    (name : Text) (body : List ℕ) (messages : List (List ℕ)) (frames : List (ℕ × Frame))
    (s : Server)
    → find s.queues name ≡ some messages
    → delivered name frames ≡ []
    → delivered name (s.sent ++ frames)
        ++ or_empty (find (put s.queues name (messages ++ body ∷ [])) name)
      ≡ flow name s ++ body ∷ []
unfolding flow waiting
requeued-flow name body messages frames s q e =
    rw
      (
        delivered-append name s.sent frames,
        e,
        append-nil (delivered name s.sent),
        find-put_self s.queues name (messages ++ body ∷ []),
        q,
      )
      (sym (append_assoc (delivered name s.sent) messages (body ∷ [])))

requeued-Doubles :
    (id : ℕ) (c : ChannelState) (m : UnackedMsg) (messages : List (List ℕ)) (s : Server)
    → find s.queues m.queue_name ≡ some messages
    → Doubles id c m s (requeued (some messages) id c m s)
unfolding redelivery send flow waiting delivered channel
requeued-Doubles id c m messages s q =
    elim (Bool-cases (c.has_conn && not (length c.consumer_tag == 0))) [
      | inl p ↦ rw p (record {
        succeeds = refl;
        sends = rw p refl;
        outstanding = requeued-outstanding id c m messages s;
        flows = requeued-flow m.queue_name m.body messages _ s q refl;
      })
      | inr p ↦ rw p (record {
        succeeds = refl;
        sends = rw p (sym (append-nil s.sent));
        outstanding = requeued-outstanding id c m messages s;
        flows =
            ap
              (λ l.
                delivered m.queue_name l
                ++ or_empty
                    (find (put s.queues m.queue_name (messages ++ m.body ∷ [])) m.queue_name))
              (sym (append-nil s.sent))
            ∙ requeued-flow m.queue_name m.body messages [] s q refl;
      })
    ]

nack-Doubles :
    (id tag : ℕ) (c : ChannelState) (m : UnackedMsg) (messages : List (List ℕ)) (s : Server)
    → find s.channel_states id ≡ some c
    → find c.unacked_messages tag ≡ some m
    → find s.queues m.queue_name ≡ some messages
    → Doubles id (acked (some m) tag c) m s (handle_basic_nack id tag s)
unfolding handle_basic_nack
nack-Doubles id tag c m messages s h u q =
    rw (h, u, q) (requeued-Doubles id (acked (some m) tag c) m messages s q)

-- The negative acknowledgement of a message that is outstanding on a channel, and whose queue exists,
-- succeeds, sends the message again to the consumer of the channel if there is one, and makes it
-- outstanding under the next delivery tag; but the body also comes out of its queue once more,
-- whatever is declared, published, consumed and acknowledged afterwards, be it this very message:
-- what was delivered from the queue, not counting redeliveries, and what waits in it are then what
-- they were before, followed by the body and by what was published since.
pub nack_doubles :
    (id tag : ℕ) (c : ChannelState) (m : UnackedMsg) (messages : List (List ℕ)) (s : Server)
    (calls : List Call)
    → find s.channel_states id ≡ some c
    → find c.unacked_messages tag ≡ some m
    → find s.queues m.queue_name ≡ some messages
    → let s' = (handle_basic_nack id tag s).1 in
      let later = run_calls calls s' in
      let name = m.queue_name in
      ((handle_basic_nack id tag s).0 ≡ false)
      × (s'.sent ≡ s.sent ++ redelivery id c m)
      × (find (channel id s').unacked_messages c.next_delivery_tag
          ≡ some (record m { redelivered = true }))
      × (delivered name later.sent ++ waiting name later
          ≡ (delivered name s.sent ++ waiting name s) ++ m.body ∷ all_taken name calls s')
unfolding flow redelivery
nack_doubles id tag c m messages s calls h u q =
    let d = nack-Doubles id tag c m messages s h u q in
    let s' = (handle_basic_nack id tag s).1 in
    let taken = all_taken m.queue_name calls s' in
    (
      d.succeeds,
      d.sends,
      d.outstanding,
      flow-run_calls m.queue_name calls s'
          ∙ ap (λ l. l ++ taken) d.flows
          ∙ append_assoc (flow m.queue_name s) (m.body ∷ []) taken,
    )
