-- ===== src/Tests/Streams.antt =====
-- src/mqtt_codec.rs on the packets of a server, as they arrive, and a server on a request.
use ruq.Base.{
  length, panic, err, ◌≡◌, Option, Outcome, ◌≢◌, refl, none, some, List, [], ◌∷◌, ◌++◌, ok, arith,
}
use ruq.Protocol.{Bytes, IoError, other, property_not_implemented}
use ruq.Protocol.Text.{is_utf8, u16_to_be, text_to_mqtt}
use ruq.Protocol.Vbi.{vbi_to_mqtt}
use ruq.Protocol.Frame.{frame}
use ruq.Protocol.Ack.Puback.{no_properties}
use ruq.Protocol.Reason.Puback.{success}
use ruq.Protocol.Reason.Disconnect.{server_busy}
use ruq.Protocol.Disconnect.{disconnect_new, set_reason, disconnect_to_mqtt, disconnect_from_mqtt}
use ruq.Protocol.Disconnect.Laws.{disconnect_reason_lost}
use ruq.Protocol.Packet.{parse_fixed_header, pub_received_type, Packet, packet_to_mqtt}
use ruq.Protocol.PktId.{pktid_to_mqtt}
use ruq.Protocol.Requests.{topics_to_mqtt}
use ruq.Server.Reader.{unsubscribes, read_request}
use ruq.Server.Requests.{Means, unsubscribe_means, read_request-packet_to}
use ruq.Codec.{decode}
use ruq.Codec.Unread.{pub_received_unread, decode-IsUnread}
use ruq.Protocol.Ack.Puback.{puback_properties_from_mqtt}
use ruq.Protocol.Ack.Puback.Pairs.{
  pair, behind_length, puback_properties_from-pair, puback_second_refused,
}
use ruq.Protocol.Properties.Laws.{IsText}
use ruq.Codec.Append.{decode-append}
use ruq.Server.Packets.{Laid, ping_resp_laid, pub_ack_id, decode-Laid}
use ruq.Server.Stream.{Sends, silent, sends, Feeds, joined, Feeds-Sends, Sends-Feeds}

abbrev first_acked : Packet
first_acked = Packet.pub_ack (record { properties = no_properties; pktid = 1; reason = success })

first_acked-Laid : Laid first_acked 0x40 (u16_to_be 1)
first_acked-Laid = pub_ack_id 1 (omega arith, omega arith)

decode-Laid_example :
    decode (frame 0x40 (u16_to_be 1) ++ (208 ∷ [])) ≡ (ok (some first_acked), 208 ∷ [])
decode-Laid_example =
    decode-Laid first_acked 0x40 (u16_to_be 1) (208 ∷ []) first_acked-Laid (omega arith)

-- A PINGRESP and a PUBACK, cut inside the one and behind the length of the other.
abbrev cut_up : List Bytes
cut_up = (208 ∷ []) ∷ (0 ∷ 64 ∷ 2 ∷ []) ∷ (0 ∷ 1 ∷ []) ∷ []

abbrev two_packets : List Packet
two_packets = Packet.ping_resp ∷ first_acked ∷ []

two_packets-Sends : Sends two_packets (joined cut_up)
unfolding frame vbi_to_mqtt
two_packets-Sends = sends ping_resp_laid (omega arith) (sends first_acked-Laid (omega arith) silent)

Sends-Feeds_example : Feeds [] cut_up two_packets []
Sends-Feeds_example = Sends-Feeds two_packets cut_up two_packets-Sends

waits_empty : decode [] ≡ (ok none, [])
unfolding decode
waits_empty = refl

cut_up_fed : Feeds [] cut_up two_packets []
cut_up_fed = Sends-Feeds two_packets cut_up two_packets-Sends

Feeds-Sends_example : (two_packets ≡ two_packets) × (◌≡◌ {A = Bytes} [] [])
Feeds-Sends_example =
    Feeds-Sends two_packets two_packets cut_up [] two_packets-Sends cut_up_fed waits_empty

found : ◌≢◌ {A = Outcome IoError (Option Packet)} (ok (some first_acked)) (ok none)
found e = cc e

decode-append_example :
    decode ((frame 0x40 (u16_to_be 1) ++ []) ++ (7 ∷ [])) ≡ (ok (some first_acked), [] ++ (7 ∷ []))
decode-append_example =
    decode-append (frame 0x40 (u16_to_be 1) ++ []) (7 ∷ []) (ok (some first_acked)) [] found
      (decode-Laid first_acked 0x40 (u16_to_be 1) [] first_acked-Laid (omega arith))

disconnect_reason_lost_example :
    disconnect_from_mqtt (disconnect_to_mqtt (set_reason server_busy disconnect_new) ++ (1 ∷ []))
    ≡ ok (disconnect_new, 3)
disconnect_reason_lost_example = disconnect_reason_lost server_busy (1 ∷ [])

abbrev two_topics : List Bytes
two_topics = (97 ∷ []) ∷ (98 ∷ 47 ∷ 99 ∷ []) ∷ []

abbrev left_both : Packet
left_both = Packet.unsubscribe (record { topics = two_topics; pktid = 7 })

left_both-Means : Means left_both (unsubscribes 7 two_topics)
unfolding pktid_to_mqtt topics_to_mqtt text_to_mqtt
left_both-Means =
    unsubscribe_means 7 (97 ∷ []) ((98 ∷ 47 ∷ 99 ∷ []) ∷ []) (omega arith, (omega arith, tt))
      (omega arith) (omega arith, omega arith)

read_request-packet_to_example :
    (enc : Bytes) × (packet_to_mqtt left_both ≡ ok enc)
    × ((rest : Bytes) → read_request (enc ++ rest) ≡ some (unsubscribes 7 two_topics, rest))
read_request-packet_to_example =
    read_request-packet_to left_both (unsubscribes 7 two_topics) left_both-Means

-- PUBREC for the identifier 1.
received_header : parse_fixed_header 0x50 ≡ some pub_received_type
unfolding parse_fixed_header
received_header = refl

decode-IsUnread_example : decode (frame 0x50 (0 ∷ 1 ∷ []) ++ (9 ∷ [])) ≡ (panic, 9 ∷ [])
decode-IsUnread_example =
    decode-IsUnread 0x50 (0 ∷ 1 ∷ []) (9 ∷ []) pub_received_type received_header pub_received_unread
      (omega arith)

a_text : IsText (97 ∷ [])
unfolding is_utf8
a_text = record { short = omega arith; valid = refl }

puback_properties_from-pair_example :
    puback_properties_from_mqtt (behind_length (pair (97 ∷ []) (97 ∷ [])) ++ (5 ∷ []))
    ≡ ok (
      record { reason_string = none; user_properties = ((97 ∷ []), (97 ∷ [])) ∷ [] },
      length (behind_length (pair (97 ∷ []) (97 ∷ []))),
    )
puback_properties_from-pair_example =
    puback_properties_from-pair (97 ∷ []) (97 ∷ []) (5 ∷ []) a_text a_text

puback_second_refused_example :
    puback_properties_from_mqtt
      (behind_length (pair (97 ∷ []) (97 ∷ []) ++ pair (98 ∷ []) (97 ∷ [])) ++ [])
    ≡ err (other (property_not_implemented 0))
puback_second_refused_example =
    puback_second_refused (97 ∷ []) (97 ∷ []) (98 ∷ []) (97 ∷ []) [] a_text a_text a_text
      (omega arith)
