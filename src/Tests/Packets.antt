-- ===== src/Tests/Packets.antt =====
-- src/protocol/ and src/mqtt_codec.rs at concrete packets.
use ruq.Base.{
  ◌≡◌, refl, ◌^◌, ◌%◌, true, none, some, List, [], ◌∷◌, ◌++◌, ◌+◌, ◌<◌, ◌⊎◌, arith, length, ltb,
  if◌then◌else◌, ok, err, panic,
}
use ruq.Protocol.{Bytes, Reads, other, vbi_exceeds_four_bytes}
use ruq.Protocol.Vbi.{vbi_to_mqtt, vbi_from_mqtt}
use ruq.Protocol.Vbi.RoundTrip.{vbi_from-vbi_to}
use ruq.Protocol.Vbi.Limits.{vbi_from_fifth}
use ruq.Protocol.Text.{is_utf8, text_to_mqtt}
use ruq.Protocol.Properties.{encode_all, user_property_to, properties_to_mqtt}
use ruq.Protocol.Properties.Laws.{IsText}
use ruq.Protocol.Property.{
  Property, payload_format_id, message_expiry_interval, user_property, property_to_mqtt,
  property_from_mqtt,
}
use ruq.Protocol.Property.Laws.{expiry_misread}
use ruq.Protocol.Qos.{at_least_once, PublishFlags, flags_to_u8}
use ruq.Protocol.Frame.{frame}
use ruq.Protocol.Packet
use ruq.Protocol.Packet.{ping_response_type, parse_fixed_header, parse_pkt}
use ruq.Protocol.Publish.{Publish, string, publish_to_mqtt, publish_from_mqtt, says_utf8}
use ruq.Protocol.Publish.RoundTrip.{IsPublish, publish_from-publish_to}
use ruq.Codec.{decode, encode}
use ruq.Codec.Framing.{Waits, Takes, decode_cases}
use ruq.Codec.RoundTrip.{decode-encode, decode-encode_part}

vbi_from-vbi_to_example :
    vbi_from_mqtt (vbi_to_mqtt 321 ++ (7 ∷ [])) ≡ ok (321, length (vbi_to_mqtt 321))
vbi_from-vbi_to_example = vbi_from-vbi_to 321 (7 ∷ []) (omega arith)

vbi_from_fifth_example :
    vbi_from_mqtt ((0 + 128) ∷ (1 + 128) ∷ (2 + 128) ∷ (3 + 128) ∷ 16 ∷ [])
    ≡ (if ltb (16 % 128) 16 then err (other vbi_exceeds_four_bytes) else panic)
vbi_from_fifth_example =
    vbi_from_fifth 0 1 2 3 16 [] (omega arith) (omega arith) (omega arith) (omega arith)
      (omega arith)

abbrev topic : Bytes
topic = 97 ∷ 47 ∷ 98 ∷ []

topic-is_utf8 : is_utf8 topic ≡ true
unfolding is_utf8
topic-is_utf8 = refl

topic-IsText : IsText topic
topic-IsText = record { short = omega arith; valid = topic-is_utf8 }

abbrev named : Property
named = user_property topic topic

expiry_misread_example :
    property_from_mqtt (property_to_mqtt (message_expiry_interval 60) ++ (7 ∷ []))
    ≡ ok (message_expiry_interval 60, 4)
expiry_misread_example = expiry_misread 60 (7 ∷ []) (omega arith)

abbrev two_properties : List Property
two_properties = payload_format_id 1 ∷ named ∷ []

two_properties_short : length (encode_all property_to_mqtt two_properties) < 2 ^ 28
unfolding encode_all property_to_mqtt user_property_to text_to_mqtt
two_properties_short = omega arith

abbrev flags : PublishFlags
flags = record { dup = true; qos = at_least_once; retain = true }

-- A PUBLISH packet with a text payload at QoS 1.
abbrev pkt : Publish
pkt = record {
  topic = topic;
  payload = string (104 ∷ 105 ∷ []);
  properties = two_properties;
  flags = flags;
  pktid = some 258;
}

pkt-IsPublish : IsPublish pkt
unfolding is_utf8 says_utf8 encode_all property_to_mqtt properties_to_mqtt user_property_to
    text_to_mqtt vbi_to_mqtt
pkt-IsPublish = record {
  topic = topic-IsText;
  payload = (refl, refl);
  properties = (omega arith, ((topic-IsText, topic-IsText), tt));
  short = two_properties_short;
  pktid = (omega arith, omega arith);
  fits = omega arith;
}

publish_from-publish_to_example :
    (enc : Bytes) × (publish_to_mqtt pkt ≡ ok enc) × Reads publish_from_mqtt enc pkt
publish_from-publish_to_example = publish_from-publish_to pkt pkt-IsPublish

decode-encode_example :
    (enc : Bytes) × (encode (Packet.publish pkt) (192 ∷ 0 ∷ []) ≡ ok ((192 ∷ 0 ∷ []) ++ enc))
    × ((rest : Bytes) → decode (enc ++ rest) ≡ (ok (some (Packet.publish pkt)), rest))
decode-encode_example = decode-encode pkt (192 ∷ 0 ∷ []) pkt-IsPublish

abbrev small : Publish
small = record {
  topic = topic;
  payload = string [];
  properties = payload_format_id 1 ∷ [];
  flags = flags;
  pktid = some 258;
}

small-IsPublish : IsPublish small
unfolding is_utf8 says_utf8 encode_all property_to_mqtt properties_to_mqtt user_property_to
    text_to_mqtt vbi_to_mqtt
small-IsPublish = record {
  topic = topic-IsText;
  payload = (refl, refl);
  properties = (omega arith, tt);
  short = omega arith;
  pktid = (omega arith, omega arith);
  fits = omega arith;
}

small_bytes :
    encode (Packet.publish small) []
    ≡ ok ((59 ∷ 10 ∷ 0 ∷ 3 ∷ 97 ∷ 47 ∷ 98 ∷ 1 ∷ []) ++ (2 ∷ 2 ∷ 1 ∷ 1 ∷ []))
unfolding encode Packet.packet_to_mqtt publish_to_mqtt property_to_mqtt frame flags_to_u8
    vbi_to_mqtt text_to_mqtt properties_to_mqtt
small_bytes = refl

decode-encode_part_example :
    decode (59 ∷ 10 ∷ 0 ∷ 3 ∷ 97 ∷ 47 ∷ 98 ∷ 1 ∷ [])
    ≡ (ok none, 59 ∷ 10 ∷ 0 ∷ 3 ∷ 97 ∷ 47 ∷ 98 ∷ 1 ∷ [])
decode-encode_part_example =
    decode-encode_part small (59 ∷ 10 ∷ 0 ∷ 3 ∷ 97 ∷ 47 ∷ 98 ∷ 1 ∷ []) (2 ∷ 1 ∷ 1 ∷ []) 2
      small-IsPublish small_bytes

decode_cases_example : Waits (240 ∷ 255 ∷ 3 ∷ []) ⊎ Takes (240 ∷ 255 ∷ 3 ∷ [])
decode_cases_example =
    decode_cases (240 ∷ 255 ∷ 3 ∷ []) (omega arith, (omega arith, (omega arith, tt)))
