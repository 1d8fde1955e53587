-- ===== src/Server/Delivery.antt =====
-- From the bytes of a server to the notifications of the user: src/mqtt_codec.rs and `poll` of
-- src/lib.rs together.
use ruq.Base.{◌++◌, arith, true, ◌≡◌, refl, ◌∙◌, ap, none, some, List, [], ◌∷◌, All, ok}
use ruq.Protocol.{Bytes}
use ruq.Protocol.Qos.{at_most_once}
use ruq.Protocol.Ack.Connack.{Connack}
use ruq.Protocol.Publish.{Publish}
use ruq.Protocol.Packet.{Packet, packet_to_mqtt}
use ruq.Protocol.Requests.{connect_to_mqtt, set_keep_alive, connect_new}
use ruq.Codec.{decode}
use ruq.EventLoop.{
  Session, Output, wrote, notified, conn_ack, message, received, go, round, send, session_new,
  on_first, first_packet,
}
use ruq.Poll.{Run, running, got, Events, after, rounds, poll, accept, poll_client_id}
use ruq.Poll.Rounds.{goes_on}
use ruq.Server.Reader.{connects, read_request}
use ruq.Server.Requests.{connect_means, read_request-packet_to}
use ruq.Server.Stream.{Sends, Feeds, joined, Feeds-Sends}

-- Packets behind CONNACK that ask for no answer.
pub data IsQuiet : Packet → Type 0 where
  quiet_message : (m : Publish) → m.flags.qos ≡ at_most_once → IsQuiet (Packet.publish m)
  quiet_ping : IsQuiet Packet.ping_resp

-- The packets of the reader as events of the loop.
abbrev pub arrivals : List Packet → Events
arrivals [] = []
arrivals (p ∷ ps) = (none, received p) ∷ arrivals ps

-- `poll` on the packets that the reader yields, the first of them before the loop.
abbrev pub served : List Packet → Run
served [] = poll none [] []
served (p ∷ ps) = poll none (got p ∷ []) (arrivals ps)

-- What the user hears of the packets behind CONNACK.
abbrev pub heard : List Packet → List Output
heard [] = []
heard (Packet.publish m ∷ ps) = notified (message (Packet.publish m)) ∷ heard ps
heard (_ ∷ ps) = heard ps

-- The run so far, with the allocator and the queue as they were.
record Heard (ps : List Packet) (s : Session) : Type 0 where
  last : Session
  runs : rounds (arrivals ps) s ≡ (heard ps, running last)
  pktids : last.pktids ≡ s.pktids
  queue : last.queue ≡ s.queue

message_round :
    (m : Publish) (s : Session)
    → m.flags.qos ≡ at_most_once
    → round none (received (Packet.publish m)) s
      ≡ ok (go s (notified (message (Packet.publish m)) ∷ []))
unfolding round
message_round m s h = rw h refl

ping_round :
    (s : Session)
    → round none (received Packet.ping_resp) s
      ≡ ok (go (record s { pingresp_received = some true }) [])
unfolding round
ping_round s = refl

Heard-of : (ps : List Packet) (s : Session) → All IsQuiet ps → Heard ps s
unfolding rounds
Heard-of [] s h = record { last = s; runs = refl; pktids = refl; queue = refl }
Heard-of (_ ∷ ps) s (quiet_message m zero_qos, h) =
    let k = Heard-of ps s h in
    record {
      last = k.last;
      runs =
          goes_on none _ (arrivals ps) s s _ (message_round m s zero_qos)
          ∙ ap (after (notified (message (Packet.publish m)) ∷ [])) k.runs;
      pktids = k.pktids;
      queue = k.queue;
    }
Heard-of (_ ∷ ps) s (quiet_ping, h) =
    let k = Heard-of ps (record s { pingresp_received = some true }) h in
    record {
      last = k.last;
      runs = goes_on none _ (arrivals ps) s _ [] (ping_round s) ∙ ap (after []) k.runs;
      pktids = k.pktids;
      queue = k.queue;
    }

-- What `poll` writes first.
abbrev connect_bytes : Bytes
connect_bytes = connect_to_mqtt (first_packet poll_client_id)

greeted :
    (c : Connack) (events : Events) (out : List Output) (s : Session)
    → rounds events session_new ≡ (out, running s)
    → poll none (got (Packet.connack c) ∷ []) events
      ≡ (wrote connect_bytes ∷ notified (conn_ack c) ∷ out, running s)
unfolding poll send packet_to_mqtt on_first
greeted c events out s e = rw (e, accept) refl

connect_read :
    (rest : Bytes)
    → read_request (connect_bytes ++ rest) ≡ some (connects poll_client_id 8 true, rest)
unfolding packet_to_mqtt first_packet set_keep_alive connect_new
connect_read rest =
    let (enc, encoded, read) =
      read_request-packet_to (Packet.connect (first_packet poll_client_id))
        (connects poll_client_id 8 true)
        (connect_means (first_packet poll_client_id) (omega arith) (omega arith)) in
    let same : enc ≡ connect_bytes = cc encoded in rw same at (read rest)

-- A server sends a CONNACK and then only QoS 0 messages and PINGRESPs, in whatever chunks its bytes
-- come, and the socket takes what is written. If decoding after each chunk until more is asked for
-- yields `qs`, then `poll` on `qs` writes its CONNECT, in which a reader by the standard finds the
-- client identifier, a keep alive of 8 seconds and a clean start; it passes on the CONNACK and then
-- every message, in the order sent, writes nothing else, and still runs, with the allocator and the
-- queue as they were at the start.
pub served-Sends :
    (c : Connack) (ps qs : List Packet) (chunks : List Bytes) (left : Bytes)
    → Sends (Packet.connack c ∷ ps) (joined chunks)
    → All IsQuiet ps
    → Feeds [] chunks qs left
    → decode left ≡ (ok none, left)
    → (enc : Bytes) × (s : Session) × (served qs
        ≡ (wrote enc ∷ notified (conn_ack c) ∷ heard ps, running s))
      × ((rest : Bytes) → read_request (enc ++ rest) ≡ some (connects poll_client_id 8 true, rest))
      × (s.pktids ≡ session_new.pktids)
      × (s.queue ≡ session_new.queue)
served-Sends c ps qs chunks left sent quiet fed waits =
    let k = Heard-of ps session_new quiet in
    let ran = greeted c (arrivals ps) (heard ps) k.last k.runs in
    let (same, _) = Feeds-Sends (Packet.connack c ∷ ps) qs chunks left sent fed waits in
    (connect_bytes, k.last, rw same ran, connect_read, k.pktids, k.queue)
