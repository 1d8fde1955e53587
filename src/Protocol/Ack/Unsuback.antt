-- ===== src/Protocol/Ack/Unsuback.antt =====
-- src/protocol/unsuback.rs: the UNSUBACK packet.
use ruq.Base.{ℕ, ◌+◌, List, length, ltb, if◌then◌else◌, ok, err, ◌>>=◌, index, slice_from}
use ruq.Protocol.{Bytes, Decoded, not_enough_bytes}
use ruq.Protocol.Vbi.{vbi_plus, vbi_from_mqtt}
use ruq.Protocol.PktId.{pktid_from_mqtt}
use ruq.Protocol.Reason.Unsuback.{UnsubackReason, unsuback_reason_try_from}
use ruq.Protocol.Ack.{
  AckProperty, ack_property_id, ack_property_to_mqtt, ack_property_from_mqtt,
  ack_properties_to_mqtt, ack_properties_from_mqtt,
}

-- The module `properties` of this file: constructor by constructor and line by line it is the one
-- of connack.rs.
abbrev pub UnsubackProperty : Type 0
UnsubackProperty = AckProperty

abbrev pub unsuback_property_id : UnsubackProperty → ℕ
unsuback_property_id = ack_property_id

abbrev pub unsuback_property_to_mqtt : UnsubackProperty → Bytes
unsuback_property_to_mqtt = ack_property_to_mqtt

abbrev pub unsuback_property_from_mqtt : Bytes → Decoded UnsubackProperty
unsuback_property_from_mqtt = ack_property_from_mqtt

abbrev pub unsuback_properties_to_mqtt : List UnsubackProperty → Bytes
unsuback_properties_to_mqtt = ack_properties_to_mqtt

abbrev pub unsuback_properties_from_mqtt : Bytes → Decoded (List UnsubackProperty)
unsuback_properties_from_mqtt = ack_properties_from_mqtt

pub record Unsuback : Type 0 where
  pub properties : List UnsubackProperty
  pub pktid : ℕ
  pub reason : UnsubackReason

-- `Unsuback::convert_from_mqtt`.
unfoldable pub unsuback_from_mqtt : Bytes → Decoded Unsuback
unsuback_from_mqtt buf = do
  (remaining_len, vbi_bytes_read) ← vbi_from_mqtt (← slice_from buf 1)
  let at_pktid = 1 + vbi_bytes_read
  if ltb (length buf) (vbi_plus remaining_len at_pktid) then err not_enough_bytes else do
    (pktid, pktid_bytes_read) ← pktid_from_mqtt (← slice_from buf at_pktid)
    let at_props = at_pktid + pktid_bytes_read
    (properties, props_bytes_read) ← unsuback_properties_from_mqtt (← slice_from buf at_props)
    let at_reason = at_props + props_bytes_read
    reason ← unsuback_reason_try_from (← index buf at_reason)
    ok (record { properties = properties; pktid = pktid; reason = reason }, at_reason + 1)
