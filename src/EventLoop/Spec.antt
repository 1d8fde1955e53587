-- ===== src/EventLoop/Spec.antt =====
-- What `poll` of src/lib.rs promises for one event, with the identifiers as a set: an abstract
-- machine that knows neither the linked list of ranges nor the helpers of the code.
use ruq.Base.{
  ℕ, ◌≤◌, ◌≡◌, ◌≢◌, Bool, true, false, Option, none, some, List, [], ◌∷◌, ◌++◌, ok, err, panic,
  out_of_fuel,
}
use ruq.Protocol.{Bytes, IoError, timed_out, other_io}
use ruq.Protocol.Qos.{QoS, at_most_once, at_least_once, exactly_once}
use ruq.Protocol.Property.{Property}
use ruq.Protocol.Publish.{Payload, Publish, new_at_most_once, new_at_least_once, new_exactly_once}
use ruq.Protocol.Ack.Puback.{Puback}
use ruq.Protocol.Ack.Suback.{Suback}
use ruq.Protocol.Ack.Unsuback.{Unsuback}
use ruq.Protocol.Reason.Disconnect.{normal}
use ruq.Protocol.Disconnect.{Disconnect, disconnect_new}
use ruq.Protocol.Requests.{subscribe_new, unsubscribe_new}
use ruq.Protocol.Packet.{Packet, packet_to_mqtt}
use ruq.PktIds.Chain.{Holds}
use ruq.PktIds.Next.{without}
use ruq.PktIds.Return.{with_id}
use ruq.Client.{Command}
use ruq.EventLoop.{
  Session, Output, wrote, notified, message, sub_ack, unsub_ack, Event, tick, received, read_failed,
  stream_done, commanded, commands_closed, go, done, Round, is_some_false, remove_first,
}

-- The free identifiers, the packets that wait for a PUBACK, and whether a PINGRESP is owed.
pub record View : Type 0 where
  pub free : ℕ → Bool
  pub in_flight : List (ℕ × Publish)
  pub owed : Bool

-- `s` is such a state.
pub record Views (v : View) (s : Session) : Type 0 where
  pub held : Holds 65535 v.free s.pktids
  pub same_queue : s.queue ≡ v.in_flight
  pub same_ping : is_some_false s.pingresp_received ≡ v.owed

-- The smallest free identifier.
pub record Least (free : ℕ → Bool) (id : ℕ) : Type 0 where
  pub out : free id ≡ true
  pub least : (j : ℕ) → free j ≡ true → id ≤ j

-- The identifier that is handed out: the smallest free one, unless that is 65535.
pub record HandsOut (free : ℕ → Bool) (id : ℕ) : Type 0 where
  pub least : Least free id
  pub below : id ≢ 65535

-- The bytes of a packet.
abbrev pub Encodes : Packet → Bytes → Type 0
Encodes p bytes = packet_to_mqtt p ≡ ok bytes

-- The packets that are only passed on.
pub data IsPlain : Packet → Type 0 where
  connect_plain : {c : _} → IsPlain (Packet.connect c)
  connack_plain : {c : _} → IsPlain (Packet.connack c)
  ping_req_plain : IsPlain Packet.ping_req
  subscribe_plain : {c : _} → IsPlain (Packet.subscribe c)
  unsubscribe_plain : {c : _} → IsPlain (Packet.unsubscribe c)
  publish_plain : {m : Publish} → m.flags.qos ≡ at_most_once → IsPlain (Packet.publish m)

-- The machine goes on; a step that writes needs a socket that takes what is written.
pub data Step (v : View) (w : Option IoError) : Event → List Output → View → Type 0 where
  ping :
      {b : Bytes}
      → w ≡ none
      → v.owed ≡ false
      → Encodes Packet.ping_req b
      → Step v w tick (wrote b ∷ []) (record v { owed = true })
  pong : Step v w (received Packet.ping_resp) [] (record v { owed = false })
  plain : {p : Packet} → IsPlain p → Step v w (received p) (notified (message p) ∷ []) v
  acked :
      (m : Puback)
      → Step v w
          (received (Packet.pub_ack m))
          []
          (record v { free = with_id v.free m.pktid; in_flight = remove_first m.pktid v.in_flight })
  subscribed :
      (m : Suback)
      → Step v w
          (received (Packet.sub_ack m))
          (notified (sub_ack m) ∷ [])
          (record v { free = with_id v.free m.pktid })
  unsubscribed :
      (m : Unsuback)
      → Step v w
          (received (Packet.unsub_ack m))
          (notified (unsub_ack m) ∷ [])
          (record v { free = with_id v.free m.pktid })
  publish_zero :
      {topic : Bytes} {payload : Payload} {ps : List Property} {retain : Bool} {b : Bytes}
      → w ≡ none
      → Encodes (Packet.publish (new_at_most_once topic payload retain ps)) b
      → Step v w (commanded (Command.publish topic payload ps at_most_once retain)) (wrote b ∷ []) v
  publish_one :
      {topic : Bytes} {payload : Payload} {ps : List Property} {retain : Bool} {b : Bytes} (id : ℕ)
      → w ≡ none
      → HandsOut v.free id
      → Encodes (Packet.publish (new_at_least_once topic payload retain ps id)) b
      → Step v w
          (commanded (Command.publish topic payload ps at_least_once retain))
          (wrote b ∷ [])
          (record v {
            free = without v.free id;
            in_flight = v.in_flight ++ ((id, new_at_least_once topic payload retain ps id) ∷ []);
          })
  publish_two :
      {topic : Bytes} {payload : Payload} {ps : List Property} {retain : Bool} {b : Bytes} (id : ℕ)
      → w ≡ none
      → HandsOut v.free id
      → Encodes (Packet.publish (new_exactly_once topic payload retain ps id)) b
      → Step v w
          (commanded (Command.publish topic payload ps exactly_once retain))
          (wrote b ∷ [])
          (record v { free = without v.free id })
  subscribe :
      {topic : Bytes} {qos : QoS} {b : Bytes} (id : ℕ)
      → w ≡ none
      → HandsOut v.free id
      → Encodes (Packet.subscribe (subscribe_new topic id qos)) b
      → Step v w
          (commanded (Command.subscribe topic qos))
          (wrote b ∷ [])
          (record v { free = without v.free id })
  unsubscribe :
      {topics : List Bytes} {b : Bytes} (id : ℕ)
      → w ≡ none
      → HandsOut v.free id
      → Encodes (Packet.unsubscribe (unsubscribe_new topics id)) b
      → Step v w
          (commanded (Command.unsubscribe topics))
          (wrote b ∷ [])
          (record v { free = without v.free id })
  idle : Step v w commands_closed [] v

-- When the loop ends well, with what it last writes.
pub data Stops (w : Option IoError) : Event → List Output → Type 0 where
  server_left : {d : Disconnect} → d.reason ≡ normal → Stops w (received (Packet.disconnect d)) []
  stream_ended : Stops w stream_done []
  client_left :
      {b : Bytes}
      → w ≡ none
      → Encodes (Packet.disconnect disconnect_new) b
      → Stops w (commanded Command.disconnect) (wrote b ∷ [])

-- The commands that take an identifier.
pub data NeedsId : Command → Type 0 where
  for_publish :
      {topic : Bytes} {payload : Payload} {ps : List Property} {q : QoS} {retain : Bool}
      → q ≢ at_most_once
      → NeedsId (Command.publish topic payload ps q retain)
  for_subscribe : {topic : Bytes} {qos : QoS} → NeedsId (Command.subscribe topic qos)
  for_unsubscribe : {topics : List Bytes} → NeedsId (Command.unsubscribe topics)

-- The events that make the loop write, where it comes to that.
pub data Writes (v : View) : Event → Type 0 where
  on_tick : v.owed ≡ false → Writes v tick
  without_id :
      {topic : Bytes} {payload : Payload} {ps : List Property} {retain : Bool}
      → Writes v (commanded (Command.publish topic payload ps at_most_once retain))
  on_leave : Writes v (commanded Command.disconnect)
  with_id_taken : {c : Command} {id : ℕ} → NeedsId c → HandsOut v.free id → Writes v (commanded c)

-- When it ends with an error, and with which.
pub data Fails (v : View) (w : Option IoError) : Event → IoError → Type 0 where
  no_pong : v.owed ≡ true → Fails v w tick timed_out
  socket : {e : Event} {x : IoError} → w ≡ some x → Writes v e → Fails v w e x
  server_fault :
      {d : Disconnect} → d.reason ≢ normal → Fails v w (received (Packet.disconnect d)) other_io
  unreadable : {x : IoError} → Fails v w (read_failed x) x

-- When the code panics.
pub data Panics (v : View) : Event → Type 0 where
  must_ack : {m : Publish} → m.flags.qos ≢ at_most_once → Panics v (received (Packet.publish m))
  no_id :
      {c : Command} → NeedsId c → ((j : ℕ) → v.free j ≡ true → j ≡ 65535) → Panics v (commanded c)

-- The outcomes of a round that the machine allows.
abbrev pub Allowed : View → Option IoError → Event → Round → Type 0
Allowed v w e (ok (go s out)) = (v' : View) × Step v w e out v' × Views v' s
Allowed v w e (ok (done out)) = Stops w e out
Allowed v w e (err x) = Fails v w e x
Allowed v w e panic = Panics v e
Allowed v w e out_of_fuel = ⊥
