-- ===== src/Amqp/Tests.antt =====
-- Tests of the AMQP server.
use portask.Prelude.{◌≡◌, refl, true, false, some, List, [], ◌∷◌, ◌++◌}
use portask.Prelude.Maps.{nat_eq, find}
use portask.Amqp.{Text, UnackedMsg, ChannelState, Server, channel, handle_basic_nack, new_server}
use portask.Amqp.Delivery.{
  Call, declares_queue, publishes, consumes, acks, run_calls, delivered, waiting, all_taken,
  run_calls-fifo,
}
use portask.Amqp.Nack.{redelivery, nack_doubles}

abbrev tasks : Text
tasks = 116 ∷ []

-- Two messages are delivered, and a third waits.
abbrev some_calls : List Call
some_calls =
    declares_queue 1 tasks []
    ∷ publishes 1 tasks (1 ∷ [])
    ∷ publishes 1 [] (2 ∷ [])
    ∷ publishes 1 (120 ∷ []) (9 ∷ [])
    ∷ consumes 2 tasks (99 ∷ [])
    ∷ acks 2 1
    ∷ publishes 1 tasks (3 ∷ [])
    ∷ []

run_calls-fifo_example :
    let s = run_calls some_calls new_server in
    delivered tasks s.sent ++ waiting tasks s ≡ all_taken tasks some_calls new_server
run_calls-fifo_example = run_calls-fifo tasks some_calls

abbrev outstanding_message : UnackedMsg
outstanding_message = record { queue_name = tasks; body = 2 ∷ []; redelivered = false }

abbrev consumer : ChannelState
consumer = record {
  bound_queue = [];
  unacked_messages = (2, outstanding_message) ∷ [];
  currently_unacked = 1;
  next_delivery_tag = 3;
  consumer_tag = 99 ∷ [];
  has_conn = true;
}

abbrev server : Server
server = record {
  exchanges = [];
  queues = (tasks, (3 ∷ []) ∷ []) ∷ [];
  channel_states = (2, consumer) ∷ [];
  sent = [];
}

-- The first consumer acknowledges the message that it is sent again, and a second one consumes.
abbrev after_nack : List Call
after_nack = acks 2 3 ∷ consumes 4 tasks (98 ∷ []) ∷ []

nack_doubles_example :
    let s' = (handle_basic_nack 2 2 server).1 in
    let later = run_calls after_nack s' in
    ((handle_basic_nack 2 2 server).0 ≡ false)
    × (s'.sent ≡ server.sent ++ redelivery 2 consumer outstanding_message)
    × (find (channel 2 s').unacked_messages 3
        ≡ some (record outstanding_message { redelivered = true }))
    × (delivered tasks later.sent ++ waiting tasks later
        ≡ (delivered tasks server.sent ++ waiting tasks server)
          ++ (2 ∷ []) ∷ all_taken tasks after_nack s')
unfolding find
nack_doubles_example =
    nack_doubles 2 2 consumer outstanding_message ((3 ∷ []) ∷ []) server after_nack refl refl refl
