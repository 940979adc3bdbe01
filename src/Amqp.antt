-- ===== src/Amqp.antt =====
-- The queues and channels of `EnhancedAMQPServer` in pkg/amqp/server.go. A call gives whether it fails
-- and the new server; the frames that it sends are kept in order, with their channel. All connections
-- share the map of channels, as in the code, and whether a channel has a connection is all that is kept
-- of it. The name that an unnamed queue gets is an argument. A delivery tag, a uint64, does not wrap.
pub mod Delivery
pub mod Nack
mod Tests
use portask.Prelude.{
  ℕ, zero, suc, ◌+◌, ◌-◌, ◌==◌, Bool, true, false, ◌&&◌, not, if◌then◌else◌, Option, none, some,
  List, [], ◌∷◌, ◌++◌, length,
}
use portask.Prelude.Maps.{nat_eq, list_eq, find, put, remove}

abbrev pub Text : Type 0
Text = List ℕ

-- `UnackedMsg`
pub record UnackedMsg : Type 0 where
  pub queue_name : Text
  pub body : List ℕ
  pub redelivered : Bool

-- `ChannelState`
pub record ChannelState : Type 0 where
  pub bound_queue : Text
  pub unacked_messages : List (ℕ × UnackedMsg)
  pub currently_unacked : ℕ
  pub next_delivery_tag : ℕ
  pub consumer_tag : Text
  pub has_conn : Bool

pub data Frame : Type 0 where
  exchange_declare_ok : Frame
  queue_declare_ok : Text → ℕ → Frame
  consume_ok : Text → Frame
  -- The consumer, the delivery tag, whether it is redelivered, the queue and the body.
  deliver : Text → ℕ → Bool → Text → List ℕ → Frame

-- `EnhancedAMQPServer`
pub record Server : Type 0 where
  pub exchanges : List (Text × Text)
  pub queues : List (Text × List (List ℕ))
  pub channel_states : List (ℕ × ChannelState)
  pub sent : List (ℕ × Frame)

unfoldable pub new_server : Server
new_server = record { exchanges = []; queues = []; channel_states = []; sent = [] }

abbrev pub new_channel_state : ChannelState
new_channel_state = record {
  bound_queue = [];
  unacked_messages = [];
  currently_unacked = 0;
  next_delivery_tag = 0;
  consumer_tag = [];
  has_conn = false;
}

abbrev pub or_new : Option ChannelState → ChannelState
or_new none = new_channel_state
or_new (some c) = c

unfoldable pub channel : ℕ → Server → ChannelState
channel id s = or_new (find s.channel_states id)

unfoldable pub send : ℕ → Frame → Server → Server
send id frame s = record s { sent = s.sent ++ (id, frame) ∷ [] }

abbrev pub or_empty : Option (List (List ℕ)) → List (List ℕ)
or_empty none = []
or_empty (some messages) = messages

-- `handleQueueDeclare`, which does not fail.
unfoldable pub handle_queue_declare : ℕ → Text → Text → Server → Server
handle_queue_declare id given generated s =
    let name = if length given == 0 then generated else given in
    let messages = or_empty (find s.queues name) in
    let s' =
      send id (queue_declare_ok name (length messages))
        (record s { queues = put s.queues name messages }) in
    record s' {
      channel_states = put s'.channel_states id (record (channel id s') { bound_queue = name });
    }

abbrev pub or_type : Option Text → Text → Text
or_type none exchange_type = exchange_type
or_type (some old) exchange_type = old

-- `handleExchangeDeclare`, which does not fail.
unfoldable pub handle_exchange_declare : ℕ → Text → Text → Server → Server
handle_exchange_declare id name exchange_type s =
    send id exchange_declare_ok (record s {
      exchanges = put s.exchanges name (or_type (find s.exchanges name) exchange_type);
    })

-- The queue that a message goes to; the empty text is none.
unfoldable pub target_queue : ℕ → Text → Server → Text
target_queue id routing_key s =
    if length routing_key == 0 then (channel id s).bound_queue else routing_key

abbrev pub published : Option (List (List ℕ)) → Text → List ℕ → Server → Bool × Server
published none name body s = (true, s)
published (some messages) name body s =
    (false, record s { queues = put s.queues name (messages ++ body ∷ []) })

-- `handleBasicPublish`
unfoldable pub handle_basic_publish : ℕ → Text → List ℕ → Server → Bool × Server
handle_basic_publish id routing_key body s =
    let name = target_queue id routing_key s in
    if length name == 0 then (true, s) else published (find s.queues name) name body s

-- The next delivery tag, for a message that is not acknowledged from here on.
unfoldable pub track : Text → List ℕ → Bool → ChannelState → ChannelState
track name body redelivered c = record c {
  unacked_messages =
      put c.unacked_messages c.next_delivery_tag
        (record { queue_name = name; body = body; redelivered = redelivered });
  currently_unacked = c.currently_unacked + 1;
  next_delivery_tag = c.next_delivery_tag + 1;
}

-- The loop over the messages that waited, with what it sends.
unfoldable pub deliver_all :
    ℕ → Text → Text → List (List ℕ) → ChannelState → ChannelState × List (ℕ × Frame)
deliver_all id name tag [] c = (c, [])
deliver_all id name tag (body ∷ messages) c =
    let (c', frames) = deliver_all id name tag messages (track name body false c) in
    (c', (id, deliver tag c.next_delivery_tag false name body) ∷ frames)

abbrev pub consuming : Option (List (List ℕ)) → ℕ → Text → Text → Server → Bool × Server
consuming none id name tag s = (true, s)
consuming (some messages) id name tag s =
    let c = channel id s in
    let first = if c.next_delivery_tag == 0 then 1 else c.next_delivery_tag in
    let (c', frames) =
      deliver_all id name tag messages
        (record c { consumer_tag = tag; has_conn = true; next_delivery_tag = first }) in
    (
      false,
      record s {
        queues = put s.queues name [];
        channel_states = put s.channel_states id c';
        sent = s.sent ++ (id, consume_ok tag) ∷ frames;
      },
    )

-- `handleBasicConsume`
unfoldable pub handle_basic_consume : ℕ → Text → Text → Server → Bool × Server
handle_basic_consume id name tag s = consuming (find s.queues name) id name tag s

abbrev pub acked : Option UnackedMsg → ℕ → ChannelState → ChannelState
acked none tag c = c
acked (some m) tag c = record c {
  unacked_messages = remove c.unacked_messages tag;
  currently_unacked = c.currently_unacked - 1;
}

abbrev pub ack_on : Option ChannelState → ℕ → ℕ → Server → Bool × Server
ack_on none id tag s = (true, s)
ack_on (some c) id tag s = (
  false,
  record s { channel_states = put s.channel_states id (acked (find c.unacked_messages tag) tag c) },
)

-- `handleBasicAck`
unfoldable pub handle_basic_ack : ℕ → ℕ → Server → Bool × Server
handle_basic_ack id tag s = ack_on (find s.channel_states id) id tag s

-- With the queue of the message.
abbrev pub requeued :
    Option (List (List ℕ)) → ℕ → ChannelState → UnackedMsg → Server → Bool × Server
requeued none id c m s = (true, record s { channel_states = put s.channel_states id c })
requeued (some messages) id c m s =
    let s' = record s {
      queues = put s.queues m.queue_name (messages ++ m.body ∷ []);
      channel_states = put s.channel_states id (track m.queue_name m.body true c);
    } in
    (
      false,
      if c.has_conn && not (length c.consumer_tag == 0)
          then send id (deliver c.consumer_tag c.next_delivery_tag true m.queue_name m.body) s'
          else s',
    )

abbrev pub nack_found : Option UnackedMsg → ℕ → ℕ → ChannelState → Server → Bool × Server
nack_found none id tag c s = (false, s)
nack_found (some m) id tag c s = requeued (find s.queues m.queue_name) id (acked (some m) tag c) m s

abbrev pub nack_on : Option ChannelState → ℕ → ℕ → Server → Bool × Server
nack_on none id tag s = (true, s)
nack_on (some c) id tag s = nack_found (find c.unacked_messages tag) id tag c s

-- `handleBasicNack`
unfoldable pub handle_basic_nack : ℕ → ℕ → Server → Bool × Server
handle_basic_nack id tag s = nack_on (find s.channel_states id) id tag s
