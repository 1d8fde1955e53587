-- ===== src/EventLoop.antt =====
-- src/lib.rs, `poll`: the connection once it stands. One round of the `select!` loop is one event.
pub mod Receipt
pub mod Keepalive
pub mod Queue
pub mod InFlight
pub mod Invariant
pub mod Spec
pub mod Refines
pub mod Exchange
use ruq.Base.{
  ℕ, Bool, true, false, Option, none, some, List, [], ◌∷◌, ◌++◌, ◌==◌, if◌then◌else◌, Outcome, ok,
  err, panic, out_of_fuel, ◌>>=◌,
}
use ruq.Protocol.{Bytes, IoError, timed_out, other_io, invalid_data}
use ruq.Protocol.Qos.{QoS, at_most_once, at_least_once, exactly_once}
use ruq.Protocol.Property.{Property}
use ruq.Protocol.Publish.{Payload, Publish, new_at_most_once, new_at_least_once, new_exactly_once}
use ruq.Protocol.Ack.Connack.{Connack}
use ruq.Protocol.Ack.Suback.{Suback}
use ruq.Protocol.Ack.Unsuback.{Unsuback}
use ruq.Protocol.Ack.Puback.{puback_new}
use ruq.Protocol.Reason.Disconnect.{DisconnectReason, normal}
use ruq.Protocol.Disconnect.{disconnect_new}
use ruq.Protocol.Requests.{Connect, connect_new, set_keep_alive, subscribe_new, unsubscribe_new}
use ruq.Protocol.Packet.{Packet, packet_to_mqtt}
use ruq.PktIds.{PktIds, next_id, return_id, new}
use ruq.Client.{Command}

-- `Notification`; for the formatted text of a packet stands the packet.
pub data Notification : Type 0 where
  conn_ack : Connack → Notification
  sub_ack : Suback → Notification
  message : Packet → Notification
  unsub_ack : Unsuback → Notification

-- What a round does to the outside.
pub data Output : Type 0 where
  wrote : Bytes → Output
  notified : Notification → Output

-- What `select!` hands over: a tick of the ping timer, what the reader yields, or a command.
pub data Event : Type 0 where
  tick : Event
  received : Packet → Event
  read_failed : IoError → Event
  stream_done : Event
  commanded : Command → Event
  commands_closed : Event

-- The variables that live across rounds.
pub record Session : Type 0 where
  pub pingresp_received : Option Bool
  pub pktids : PktIds
  pub queue : List (ℕ × Publish)

-- The loop goes on, or `poll` returns `Ok(())`. An `Err` and a panic are those of `Outcome`.
pub data Flow : Type 0 where
  go : Session → List Output → Flow
  done : List Output → Flow

abbrev pub Round : Type 0
Round = Outcome IoError Flow

-- `mqtt_write.send(pkt).await?`: the packet is encoded, and the socket answers with an error or not.
unfoldable pub send : Option IoError → Packet → Outcome IoError (List Output)
send none pkt = do bytes ← packet_to_mqtt pkt; ok (wrote bytes ∷ [])
send (some e) pkt = do bytes ← packet_to_mqtt pkt; err e

-- A call of `PktIds` inside `poll`: it answers or panics.
abbrev pub inside {ℓ} : {A : Type ℓ} → Outcome ⊥ A → Outcome IoError A
inside (ok a) = ok a
inside (err e) = panic
inside panic = panic
inside out_of_fuel = out_of_fuel

-- The ping timer.
abbrev pub is_some_false : Option Bool → Bool
is_some_false (some false) = true
is_some_false _ = false

on_tick : Option IoError → Session → Round
on_tick w s = if is_some_false s.pingresp_received then err timed_out else (do
  out ← send w Packet.ping_req
  ok (go (record s { pingresp_received = some false }) out))

-- `queue.iter().position(…)` and `queue.remove(idx)`: the first entry with the identifier goes.
unfoldable pub remove_first : ℕ → List (ℕ × Publish) → List (ℕ × Publish)
remove_first id [] = []
remove_first id ((j, p) ∷ queue) = if j == id then queue else (j, p) ∷ remove_first id queue

pub give_back : ℕ → Session → List Output → Round
give_back id s out = do
  pktids ← inside (return_id id s.pktids)
  ok (go (record s { pktids = pktids }) out)

-- An incoming PUBLISH is acknowledged as its QoS asks, then passed on; `todo!` is a panic.
on_publish : Option IoError → Session → Publish → QoS → Option ℕ → Round
on_publish w s m at_most_once pktid = ok (go s (notified (message (Packet.publish m)) ∷ []))
on_publish w s m at_least_once none = panic
on_publish w s m at_least_once (some id) = do
  out ← send w (Packet.pub_ack (puback_new id))
  ok (go s (out ++ (notified (message (Packet.publish m)) ∷ [])))
on_publish w s m exactly_once pktid = panic

on_disconnect : DisconnectReason → Round
on_disconnect normal = ok (done [])
on_disconnect _ = err other_io

on_packet : Option IoError → Session → Packet → Round
on_packet w s (Packet.disconnect d) = on_disconnect d.reason
on_packet w s Packet.ping_resp = ok (go (record s { pingresp_received = some true }) [])
on_packet w s (Packet.sub_ack m) = give_back m.pktid s (notified (sub_ack m) ∷ [])
on_packet w s (Packet.unsub_ack m) = give_back m.pktid s (notified (unsub_ack m) ∷ [])
on_packet w s (Packet.pub_ack m) =
    give_back m.pktid (record s { queue = remove_first m.pktid s.queue }) []
on_packet w s (Packet.publish m) = on_publish w s m m.flags.qos m.pktid
on_packet w s m = ok (go s (notified (message m) ∷ []))

-- `match pktids.next_id()`: without an identifier the code reaches `todo!`.
pub fresh : Session → Outcome IoError (ℕ × PktIds)
fresh s = do
  (id, pktids) ← inside (next_id s.pktids)
  elim id [ none ↦ panic | some i ↦ ok (i, pktids) ]

on_publish_command : Option IoError → Session → Bytes → Payload → List Property → QoS → Bool → Round
on_publish_command w s topic payload properties at_most_once retain = do
  out ← send w (Packet.publish (new_at_most_once topic payload retain properties))
  ok (go s out)
on_publish_command w s topic payload properties at_least_once retain = do
  (pktid, pktids) ← fresh s
  let pkt = new_at_least_once topic payload retain properties pktid
  out ← send w (Packet.publish pkt)
  ok (go (record s { pktids = pktids; queue = s.queue ++ ((pktid, pkt) ∷ []) }) out)
on_publish_command w s topic payload properties exactly_once retain = do
  (pktid, pktids) ← fresh s
  out ← send w (Packet.publish (new_exactly_once topic payload retain properties pktid))
  ok (go (record s { pktids = pktids }) out)

on_command : Option IoError → Session → Command → Round
on_command w s (Command.publish topic payload properties qos retain) =
    on_publish_command w s topic payload properties qos retain
on_command w s (Command.subscribe topic qos) = do
  (pktid, pktids) ← fresh s
  out ← send w (Packet.subscribe (subscribe_new topic pktid qos))
  ok (go (record s { pktids = pktids }) out)
on_command w s (Command.unsubscribe topics) = do
  (pktid, pktids) ← fresh s
  out ← send w (Packet.unsubscribe (unsubscribe_new topics pktid))
  ok (go (record s { pktids = pktids }) out)
on_command w s Command.disconnect = do
  out ← send w (Packet.disconnect disconnect_new)
  ok (done out)

-- One round; `w` is the answer of the socket to what the round writes.
unfoldable pub round : Option IoError → Event → Session → Round
unfolding on_tick on_packet give_back on_publish on_disconnect on_command on_publish_command fresh
round w tick s = on_tick w s
round w (received x) s = on_packet w s x
round w (read_failed e) s = err e
round w stream_done s = ok (done [])
round w (commanded x) s = on_command w s x
round w commands_closed s = ok (go s [])

-- The state before the first round.
unfoldable pub session_new : Session
session_new = record { pingresp_received = none; pktids = new; queue = [] }

-- The CONNECT packet of `poll`, and the answer that it waits for.
unfoldable pub first_packet : Bytes → Connect
first_packet client_id = set_keep_alive 8 (connect_new client_id)

unfoldable pub on_first : Packet → Outcome IoError (List Output)
on_first (Packet.connack p) = ok (notified (conn_ack p) ∷ [])
on_first _ = err invalid_data
