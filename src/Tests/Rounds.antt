-- ===== src/Tests/Rounds.antt =====
-- The rounds of the event loop in src/lib.rs at concrete states.
use ruq.Base.{
  length, ◌^◌, ◌<◌, ℕ, ◌≡◌, refl, ◌≢◌, ◌≤◌, Bool, true, false, ◌||◌, ◌&&◌, none, some, List, [],
  ◌∷◌, ◌++◌, arith, leb, ok, err, panic,
}
use ruq.Protocol.{Bytes, timed_out, other_io}
use ruq.Protocol.PktId.{IsPktId}
use ruq.Protocol.Qos.{at_most_once, at_least_once, exactly_once}
use ruq.Protocol.Text.{is_utf8, text_to_mqtt}
use ruq.Protocol.Properties.{encode_all, properties_to_mqtt}
use ruq.Protocol.Property.{Property, payload_format_id, property_to_mqtt}
use ruq.Protocol.Publish.{Publish, string, bytes, new, new_at_least_once, says_utf8}
use ruq.Protocol.Publish.RoundTrip.{IsPublish}
use ruq.Protocol.Ack.Puback.{Puback, puback_new}
use ruq.Protocol.Ack.Suback.{Suback}
use ruq.Protocol.Packet
use ruq.Protocol.Vbi.{vbi_to_mqtt}
use ruq.Protocol.Requests.{pingreq_to_mqtt}
use ruq.PktIds.{vacant, taken}
use ruq.PktIds.Next.{without}
use ruq.Codec.{decode}
use ruq.Client
use ruq.EventLoop.{
  Session, wrote, notified, sub_ack, tick, received, commanded, commands_closed, go, round, send,
}
use ruq.EventLoop.Spec.{View, Views, Allowed, Least}
use ruq.EventLoop.Exchange.{round-publish_command_acked, asked, round-subscribe_acked}
use ruq.Server.Reader.{Filter, subscribes, read_request}
use ruq.EventLoop.Refines.{Expected, round-Allowed}
use ruq.EventLoop.Receipt.{round-publish_acked}
use ruq.EventLoop.Keepalive.{Rounds, stop, next, Rounds-time_out}
use ruq.EventLoop.InFlight.{Tracks, round-publish_command}
use ruq.EventLoop.Invariant.{
  Consistent, Answering, Reachable, at_start, after_round, Reachable-Consistent,
}
use ruq.PktIds
use ruq.EventLoop.{session_new}
use ruq.PktIds.{next_id}
use ruq.Protocol.Publish.{publish_to_mqtt}
use ruq.Protocol.Frame.{frame}
use ruq.Protocol.Qos.{flags_to_u8}

abbrev pub topic : Bytes
topic = 97 ∷ 47 ∷ 98 ∷ []

abbrev at_one : Publish
at_one = record {
  topic = topic;
  payload = bytes [];
  properties = [];
  flags = record { dup = false; qos = at_least_once; retain = false };
  pktid = some 2;
}

-- 1 and 2 are in use, 2 by a packet of the queue.
abbrev busy : Session
busy = record {
  pingresp_received = some true;
  pktids = record { start = 1; ranges = vacant ∷ taken 3 65535 0 ∷ [] };
  queue = (2, at_one) ∷ [];
}

abbrev free_three : ℕ → Bool
free_three id = (leb 3 id && leb id 65535) || false

busy-Tracks : Tracks free_three busy
busy-Tracks = record {
  held = record {
    cells = (1, 3, 65535) ∷ [];
    bound = omega arith;
    sentinel = refl;
    head = refl;
    chain = (refl, omega arith, refl, omega arith, omega arith);
    shows = λ id. refl;
  };
  queued = (refl, (omega arith, omega arith), tt, tt);
}

at_one_acked : at_least_once ≢ at_most_once
at_one_acked e = cc e

round-publish_acked_example : round (some other_io) (received (Packet.publish at_one)) busy ≡ panic
round-publish_acked_example = round-publish_acked (some other_io) busy at_one at_one_acked

abbrev waiting : Session
waiting = record busy { pingresp_received = some false }

ticked : round none tick busy ≡ ok (go waiting (wrote (192 ∷ 0 ∷ []) ∷ []))
unfolding round send Packet.packet_to_mqtt pingreq_to_mqtt
ticked = refl

after_a_tick :
    Rounds busy (tick ∷ commands_closed ∷ []) ((wrote (192 ∷ 0 ∷ []) ∷ []) ++ ([] ++ [])) waiting
unfolding round
after_a_tick = next none ticked (next none refl stop)

closed_only : commands_closed ≢ received Packet.ping_resp
closed_only e = cc e

Rounds-time_out_example : round none tick waiting ≡ err timed_out
Rounds-time_out_example =
    Rounds-time_out busy waiting (commands_closed ∷ []) _ none after_a_tick (closed_only, tt)

abbrev acked : Puback
acked = puback_new 2

abbrev pub marked : List Property
marked = payload_format_id 1 ∷ []

pub command-IsPublish :
    (id : ℕ) → IsPktId id → IsPublish (new_at_least_once topic (string []) false marked id)
unfolding is_utf8 says_utf8 encode_all property_to_mqtt properties_to_mqtt text_to_mqtt
    new_at_least_once new vbi_to_mqtt
command-IsPublish id h = record {
  topic = record { short = omega arith; valid = refl };
  payload = (refl, refl);
  properties = (omega arith, tt);
  short = omega arith;
  pktid = h;
  fits = omega arith;
}

three_is_not_last : ◌≢◌ {A = ℕ} 3 65535
three_is_not_last e = omega arith

round-publish_command_example :
    (id : ℕ) × (s' : Session) × (enc : Bytes) × (round none
        (commanded (Client.publish topic (string []) marked at_least_once false))
        busy
      ≡ ok (go s' (wrote enc ∷ [])))
    × (free_three id ≡ true)
    × ((j : ℕ) → free_three j ≡ true → id ≤ j)
    × Tracks (without free_three id) s'
    × (s'.queue ≡ busy.queue ++ ((id, new_at_least_once topic (string []) false marked id) ∷ []))
    × ((rest : Bytes)
        → decode (enc ++ rest) ≡ (
          ok (some (Packet.publish (new_at_least_once topic (string []) false marked id))),
          rest,
        ))
round-publish_command_example =
    round-publish_command free_three busy 3 topic (string []) marked false busy-Tracks refl
      three_is_not_last command-IsPublish

-- The start, and one packet sent at QoS 1 from there.
abbrev sent_one : Session
sent_one = record {
  pingresp_received = none;
  pktids = record { start = 1; ranges = vacant ∷ taken 2 65535 0 ∷ [] };
  queue = (1, new_at_least_once topic (bytes []) false [] 1) ∷ [];
}

abbrev first_bytes : Bytes
first_bytes = 50 ∷ 8 ∷ 0 ∷ 3 ∷ 97 ∷ 47 ∷ 98 ∷ 0 ∷ 1 ∷ 0 ∷ []

sent_first :
    round none (commanded (Client.publish topic (bytes []) [] at_least_once false)) session_new
    ≡ ok (go sent_one (wrote first_bytes ∷ []))
unfolding round session_new PktIds.new next_id send Packet.packet_to_mqtt publish_to_mqtt
    new_at_least_once new properties_to_mqtt text_to_mqtt vbi_to_mqtt frame flags_to_u8 encode_all
sent_first = refl

no_ack :
    (free : ℕ → Bool)
    → Tracks free session_new
    → Answering free session_new
        (commanded (Client.publish topic (bytes []) [] at_least_once false))
unfolding Answering
no_ack free h = tt

sent_one-Reachable : Reachable sent_one
sent_one-Reachable = after_round none _ at_start no_ack sent_first

Reachable-Consistent_example : Consistent sent_one
Reachable-Consistent_example = Reachable-Consistent sent_one sent_one-Reachable

abbrev busy_view : View
busy_view = record { free = free_three; in_flight = (2, at_one) ∷ []; owed = false }

busy-Views : Views busy_view busy
busy-Views = record { held = busy-Tracks.held; same_queue = refl; same_ping = refl }

in_use : Expected busy_view (received (Packet.pub_ack acked))
unfolding Expected puback_new
in_use = ((omega arith, omega arith), refl)

round-Allowed_example :
    Allowed busy_view
      (some other_io)
      (received (Packet.pub_ack acked))
      (round (some other_io) (received (Packet.pub_ack acked)) busy)
round-Allowed_example =
    round-Allowed busy_view (some other_io) busy (received (Packet.pub_ack acked)) busy-Views in_use

abbrev busy_topic_asked : List Filter
busy_topic_asked = asked topic exactly_once ∷ []

topic_short : length topic < 2 ^ 16
topic_short = omega arith

round-subscribe_acked_example :
    (id : ℕ) × (s' : Session) × (enc : Bytes) × (round none
        (commanded (Client.subscribe topic exactly_once))
        busy
      ≡ ok (go s' (wrote enc ∷ [])))
    × Least free_three id
    × ((rest : Bytes) → read_request (enc ++ rest) ≡ some (subscribes id busy_topic_asked, rest))
    × ((m : Suback)
        → m.pktid ≡ id
        → (s'' : Session) × (round none (received (Packet.sub_ack m)) s'
            ≡ ok (go s'' (notified (sub_ack m) ∷ [])))
          × Tracks free_three s''
          × (s''.queue ≡ busy.queue))
round-subscribe_acked_example =
    round-subscribe_acked free_three busy 3 topic exactly_once busy-Tracks refl three_is_not_last
      topic_short

round-publish_command_acked_example :
    (id : ℕ) × (s' : Session) × (enc : Bytes) × (round none
        (commanded (Client.publish topic (string []) marked at_least_once false))
        busy
      ≡ ok (go s' (wrote enc ∷ [])))
    × Least free_three id
    × (s'.queue ≡ busy.queue ++ ((id, new_at_least_once topic (string []) false marked id) ∷ []))
    × (Packet.packet_to_mqtt (Packet.publish (new_at_least_once topic (string []) false marked id))
        ≡ ok enc)
    × ((m : Puback)
        → m.pktid ≡ id
        → (s'' : Session) × (round none (received (Packet.pub_ack m)) s' ≡ ok (go s'' []))
          × Tracks free_three s''
          × (s''.queue ≡ busy.queue))
round-publish_command_acked_example =
    round-publish_command_acked free_three busy 3 topic (string []) marked false busy-Tracks refl
      three_is_not_last
