-- ===== src/Protocol/Property.antt =====
-- src/protocol/properties.rs: the properties of a PUBLISH packet.
pub mod Laws
pub mod Ends
use ruq.Base.{
  ℕ, ◌+◌, ◌^◌, ◌<◌, List, [], ◌∷◌, ◌++◌, ◌==◌, if◌then◌else◌, Outcome, ok, err, ◌>>=◌, ok_or,
  get_range, index, slice_from,
}
use ruq.Protocol.{Bytes, ConvertError, Decoded, not_enough_bytes, other, property_not_implemented}
use ruq.Protocol.Text.{u32_to_be, from_be, text_to_mqtt, string_from_mqtt, vec_from_mqtt}
use ruq.Protocol.Properties.{
  user_property_to, user_property_from, properties_to_mqtt, properties_from_mqtt,
}

pub data Property : Type 0 where
  payload_format_id message_expiry_interval : ℕ → Property
  response_topic correlation_data : Bytes → Property
  user_property : Bytes → Bytes → Property

-- `Property::id`.
abbrev pub property_id : Property → ℕ
property_id (payload_format_id v) = 0x01
property_id (message_expiry_interval v) = 0x02
property_id (response_topic s) = 0x08
property_id (correlation_data b) = 0x09
property_id (user_property k v) = 0x26

property_body : Property → Bytes
property_body (payload_format_id v) = v ∷ []
property_body (message_expiry_interval v) = u32_to_be v
property_body (response_topic s) = text_to_mqtt s
property_body (correlation_data b) = text_to_mqtt b
property_body (user_property k v) = user_property_to k v

-- `Property::convert_to_mqtt`.
unfoldable pub property_to_mqtt : Property → Bytes
unfolding property_body
property_to_mqtt p = property_id p ∷ property_body p

property_by_id : ℕ → Bytes → Decoded Property
property_by_id id bytes =
    if id == 0x01
    then (do v ← index bytes 1; ok (payload_format_id v, 2))
    else if id == 0x02
    then (do
      four ← ok_or not_enough_bytes (get_range bytes 1 5)
      ok (message_expiry_interval (from_be four), 4))
    else if id == 0x08
    then (do
      (s, bytes_consumed) ← string_from_mqtt (← slice_from bytes 1)
      ok (response_topic s, bytes_consumed + 1))
    else if id == 0x09
    then (do
      (s, bytes_consumed) ← vec_from_mqtt (← slice_from bytes 1)
      ok (correlation_data s, bytes_consumed + 1))
    else if id == 0x26
    then (do ((k, v), n) ← user_property_from bytes; ok (user_property k v, n))
    else err (other (property_not_implemented id))

-- `Property::convert_from_mqtt`.
unfoldable pub property_from_mqtt : Bytes → Decoded Property
unfolding property_by_id
property_from_mqtt [] = err not_enough_bytes
property_from_mqtt (b ∷ bs) = property_by_id b (b ∷ bs)
