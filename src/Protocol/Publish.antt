-- ===== src/Protocol/Publish.antt =====
-- src/protocol/publish.rs: the PUBLISH packet.
pub mod RoundTrip
use ruq.Base.{
  ℕ, ◌+◌, ◌-◌, ◌^◌, ◌<◌, Bool, true, false, ◌||◌, Option, none, some, List, [], ◌∷◌, ◌++◌, length,
  ltb, ◌==◌, if◌then◌else◌, get_elem?, Outcome, ok, err, panic, ◌>>=◌, ok_or, slice, slice_from,
  checked_sub,
}
use ruq.Protocol.{Bytes, ConvertError, Decoded, IoError, not_enough_bytes, other, not_utf8}
use ruq.Protocol.Vbi.{vbi_equals, vbi_below, vbi_plus, plus_vbi, vbi_minus, vbi_from_mqtt}
use ruq.Protocol.Text.{is_utf8, u16_to_be, text_to_mqtt, string_from_mqtt}
use ruq.Protocol.PktId.{pktid_from_mqtt}
use ruq.Protocol.Qos.{
  QoS, at_most_once, at_least_once, exactly_once, above_at_most_once, PublishFlags, flags_try_from,
  flags_to_u8,
}
use ruq.Protocol.Properties.{properties_to_mqtt, properties_from_mqtt}
use ruq.Protocol.Property.{Property, payload_format_id, property_to_mqtt, property_from_mqtt}
use ruq.Protocol.Frame.{frame}

pub data Payload : Type 0 where
  string bytes : Bytes → Payload

-- `Payload::convert_to_mqtt`.
abbrev pub payload_to_mqtt : Payload → Bytes
payload_to_mqtt (string s) = s
payload_to_mqtt (bytes v) = v

pub record Publish : Type 0 where
  pub topic : Bytes
  pub payload : Payload
  pub properties : List Property
  pub flags : PublishFlags
  pub pktid : Option ℕ

-- `Publish::new` and the three constructors over it.
unfoldable pub new : Bytes → Payload → Bool → List Property → Option ℕ → QoS → Publish
new topic payload retain properties pktid qos = record {
  topic = topic;
  payload = payload;
  properties = properties;
  flags = record { dup = false; qos = qos; retain = retain };
  pktid = pktid;
}

unfoldable pub new_at_most_once : Bytes → Payload → Bool → List Property → Publish
unfolding new
new_at_most_once topic payload retain properties =
    new topic payload retain properties none at_most_once

unfoldable pub new_at_least_once : Bytes → Payload → Bool → List Property → ℕ → Publish
unfolding new
new_at_least_once topic payload retain properties pktid =
    new topic payload retain properties (some pktid) at_least_once

unfoldable pub new_exactly_once : Bytes → Payload → Bool → List Property → ℕ → Publish
unfolding new
new_exactly_once topic payload retain properties pktid =
    new topic payload retain properties (some pktid) exactly_once

-- `if self.flags.qos > QoS::AtMostOnce`, with `self.pktid.unwrap()`.
abbrev pub pktid_part : Bool → Option ℕ → Outcome IoError Bytes
pktid_part false pktid = ok []
pktid_part true none = panic
pktid_part true (some id) = ok (u16_to_be id)

-- `Publish::convert_to_mqtt`.
unfoldable pub publish_to_mqtt : Publish → Outcome IoError Bytes
publish_to_mqtt p = do
  id ← pktid_part (above_at_most_once p.flags.qos) p.pktid
  ok (
      frame (0x30 + flags_to_u8 p.flags) (
        text_to_mqtt p.topic
        ++ (id ++ (properties_to_mqtt property_to_mqtt p.properties ++ payload_to_mqtt p.payload))))

-- `properties.iter().any(|prop| matches!(prop, Property::PayloadFormatId(1)))`.
unfoldable pub says_utf8 : List Property → Bool
says_utf8 [] = false
says_utf8 (payload_format_id v ∷ ps) = (v == 1) || says_utf8 ps
says_utf8 (_ ∷ ps) = says_utf8 ps

-- The packet identifier at the offset `at_pktid`, which only a QoS above 0 has.
abbrev pub read_pktid : Bool → Bytes → ℕ → Decoded (Option ℕ)
read_pktid false buf at_pktid = ok (none, 0)
read_pktid true buf at_pktid = do
  (id, len) ← pktid_from_mqtt (← slice_from buf at_pktid)
  ok (some id, len)

abbrev pub read_payload : Bool → Bytes → Outcome ConvertError Payload
read_payload true body = if is_utf8 body then ok (string body) else err (other not_utf8)
read_payload false body = ok (bytes body)

-- `Publish::convert_from_mqtt`.
unfoldable pub publish_from_mqtt : Bytes → Decoded Publish
publish_from_mqtt buf = do
  byte ← ok_or not_enough_bytes (get_elem? buf 0)
  flags ← flags_try_from byte
  (remaining_len, vbi_bytes_read) ← vbi_from_mqtt (← slice_from buf 1)
  if ltb (length buf) (vbi_plus remaining_len vbi_bytes_read + 1) then err not_enough_bytes else do
    let at_topic = 1 + vbi_bytes_read
    (topic, topic_bytes_read) ← string_from_mqtt (← slice_from buf at_topic)
    let at_pktid = at_topic + topic_bytes_read
    (pktid, pktid_bytes_read) ← read_pktid (above_at_most_once flags.qos) buf at_pktid
    let at_props = at_pktid + pktid_bytes_read
    (properties, props_bytes_read) ←
        properties_from_mqtt property_from_mqtt (← slice_from buf at_props)
    let at_payload = at_props + props_bytes_read
    payload_len ← vbi_minus remaining_len (topic_bytes_read + pktid_bytes_read + props_bytes_read)
    body ← slice buf at_payload (at_payload + payload_len)
    payload ← read_payload (says_utf8 properties) body
    ok (
      record {
        topic = topic;
        payload = payload;
        properties = properties;
        flags = flags;
        pktid = pktid;
      },
      at_payload + payload_len,
    )
