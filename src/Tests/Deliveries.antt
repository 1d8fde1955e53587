-- ===== src/Tests/Deliveries.antt =====
-- src/lib.rs, `poll`: messages of a server as they arrive, and messages of the client in a row.
use ruq.Base.{
  true, some, ◌++◌, All, ◌≡◌, refl, ◌≤◌, ◌<◌, false, none, List, [], ◌∷◌, arith, length, ok,
}
use ruq.Protocol.{Bytes}
use ruq.Protocol.Text.{is_utf8, text_to_mqtt}
use ruq.Protocol.Vbi.{vbi_to_mqtt}
use ruq.Protocol.Frame.{frame}
use ruq.Protocol.Properties.{encode_all, properties_to_mqtt}
use ruq.Protocol.Property.{property_to_mqtt}
use ruq.Protocol.Qos.{at_most_once, flags_to_u8}
use ruq.Protocol.Publish.{Publish, string, bytes, says_utf8}
use ruq.Protocol.Publish.RoundTrip.{IsPublish}
use ruq.Protocol.Ack.{ack_properties_to_mqtt}
use ruq.Protocol.Ack.Laws.{AreAckTexts}
use ruq.Protocol.Ack.Connack.{Connack}
use ruq.Protocol.Reason.Connack.{success, connack_reason_to_u8}
use ruq.Protocol.Packet.{Packet}
use ruq.Codec.{decode}
use ruq.EventLoop.{Session, Output, wrote, notified, conn_ack, session_new}
use ruq.Poll.{running, panicked, rounds}
use ruq.Poll.Burst.{Message, packets, burst, numbered, rounds-burst}
use ruq.Protocol.Ack.Puback.{Puback, puback_new}
use ruq.PktIds.Start.{up_to}
use ruq.EventLoop.InFlight.{Tracks, session_new-Tracks}
use ruq.EventLoop.Spec.{Least}
use ruq.Poll.Rounds.{Written}
use ruq.Poll.Steady.{acked, packets_under, IsAcked, rounds-acked}
use ruq.Server.Reader.{connects, read_request}
use ruq.Poll.{poll_client_id}
use ruq.Server.Packets.{connack_laid, publish_laid, ping_resp_laid}
use ruq.Server.Stream.{Sends, silent, sends, joined, Sends-Feeds}
use ruq.Server.Delivery.{quiet_message, quiet_ping, served, heard, served-Sends}
use ruq.Tests.Rounds.{topic, marked}

abbrev hello : Publish
hello = record {
  topic = 97 ∷ [];
  payload = bytes (104 ∷ []);
  properties = [];
  flags = record { dup = false; qos = at_most_once; retain = false };
  pktid = none;
}

hello-IsPublish : IsPublish hello
unfolding is_utf8 says_utf8 encode_all property_to_mqtt properties_to_mqtt text_to_mqtt vbi_to_mqtt
hello-IsPublish = record {
  topic = record { short = omega arith; valid = refl };
  payload = refl;
  properties = tt;
  short = omega arith;
  pktid = tt;
  fits = omega arith;
}

abbrev welcome : Connack
welcome = record { flags = record { session_present = false }; reason = success; properties = [] }

abbrev behind_welcome : List Packet
behind_welcome = Packet.ping_resp ∷ Packet.publish hello ∷ []

-- CONNACK, PINGRESP and a message, cut where no packet ends.
abbrev three_chunks : List Bytes
three_chunks =
    (0x20 ∷ 3 ∷ []) ∷ (0 ∷ 0 ∷ 0 ∷ 208 ∷ 0 ∷ 48 ∷ []) ∷ (5 ∷ 0 ∷ 1 ∷ 97 ∷ 0 ∷ 104 ∷ []) ∷ []

no_texts : AreAckTexts []
unfolding encode_all
no_texts = record { each = tt; short = omega arith }

three_chunks-Sends : Sends (Packet.connack welcome ∷ behind_welcome) (joined three_chunks)
unfolding frame vbi_to_mqtt flags_to_u8 text_to_mqtt properties_to_mqtt encode_all
    ack_properties_to_mqtt connack_reason_to_u8
three_chunks-Sends = sends (connack_laid welcome no_texts) (omega arith) (
    sends ping_resp_laid (omega arith)
      (sends (publish_laid hello hello-IsPublish) (omega arith) silent))

nothing_waits : decode [] ≡ (ok none, [])
unfolding decode
nothing_waits = refl

served-Sends_example :
    (enc : Bytes) × (s : Session) × (served (Packet.connack welcome ∷ behind_welcome)
      ≡ (wrote enc ∷ notified (conn_ack welcome) ∷ heard behind_welcome, running s))
    × ((rest : Bytes) → read_request (enc ++ rest) ≡ some (connects poll_client_id 8 true, rest))
    × (s.pktids ≡ session_new.pktids)
    × (s.queue ≡ session_new.queue)
served-Sends_example =
    served-Sends welcome behind_welcome (Packet.connack welcome ∷ behind_welcome) three_chunks []
      three_chunks-Sends (quiet_ping, (quiet_message hello refl, tt))
      (Sends-Feeds (Packet.connack welcome ∷ behind_welcome) three_chunks three_chunks-Sends)
      nothing_waits

abbrev note : Message
note = record { topic = topic; payload = string []; properties = marked; retain = false }

abbrev two_notes : List Message
two_notes = note ∷ note ∷ []

rounds-burst_example :
    (length two_notes ≤ 65534
      → (s : Session) × (out : List Output) × (rounds (burst two_notes) session_new
          ≡ (out, running s))
        × Written (packets 1 two_notes) out
        × (s.queue ≡ numbered 1 two_notes))
    × (65534 < length two_notes → (rounds (burst two_notes) session_new).1 ≡ panicked)
rounds-burst_example = rounds-burst two_notes

-- Both are acknowledged, the first before the second goes out.
abbrev both_acked : List (Message × Puback)
both_acked = (note, puback_new 1) ∷ (note, puback_new 1) ∷ []

first_identifier : Least (up_to 65535) 1
first_identifier = record { out = refl; least = λ j e. ground arith }

both_acked-IsAcked : All (IsAcked 1) both_acked
unfolding puback_new
both_acked-IsAcked = (refl, (refl, tt))

rounds-acked_example :
    (s' : Session) × (out : List Output) × (rounds (acked both_acked) session_new
      ≡ (out, running s'))
    × Written (packets_under 1 both_acked) out
    × Tracks (up_to 65535) s'
    × (s'.queue ≡ session_new.queue)
rounds-acked_example =
    rounds-acked (up_to 65535) session_new 1 both_acked session_new-Tracks first_identifier
      (λ e. omega arith) both_acked-IsAcked
