-- ===== src/Protocol/Ack.antt =====
-- The properties of CONNACK, SUBACK and UNSUBACK (the modules `properties` of
-- src/protocol/connack.rs, suback.rs and unsuback.rs), which have the same code.
pub mod Connack
pub mod Suback
pub mod Unsuback
pub mod Puback
pub mod Ends
pub mod Laws
use ruq.Base.{ℕ, ◌+◌, List, ◌∷◌, [], ◌==◌, if◌then◌else◌, Outcome, ok, err, ◌>>=◌, slice_from}
use ruq.Protocol.{Bytes, Decoded, not_enough_bytes, other, property_not_implemented}
use ruq.Protocol.Text.{text_to_mqtt, string_from_mqtt}
use ruq.Protocol.Properties.{
  user_property_to, user_property_from, properties_to_mqtt, properties_from_mqtt,
}

-- `ConnackProperty`, `SubackProperty` and `UnsubackProperty`.
pub data AckProperty : Type 0 where
  reason_string : Bytes → AckProperty
  user_property : Bytes → Bytes → AckProperty

-- `id`.
abbrev pub ack_property_id : AckProperty → ℕ
ack_property_id (reason_string s) = 0x1f
ack_property_id (user_property k v) = 0x26

ack_property_body : AckProperty → Bytes
ack_property_body (reason_string s) = text_to_mqtt s
ack_property_body (user_property k v) = user_property_to k v

-- `convert_to_mqtt` of such a property.
unfoldable pub ack_property_to_mqtt : AckProperty → Bytes
unfolding ack_property_body
ack_property_to_mqtt p = ack_property_id p ∷ ack_property_body p

ack_property_by_id : ℕ → Bytes → Decoded AckProperty
ack_property_by_id id buf =
    if id == 0x1f
    then (do
      (s, bytes_consumed) ← string_from_mqtt (← slice_from buf 1)
      ok (reason_string s, bytes_consumed + 1))
    else if id == 0x26
    then (do ((k, v), n) ← user_property_from buf; ok (user_property k v, n))
    else err (other (property_not_implemented id))

-- `convert_from_mqtt` of such a property.
unfoldable pub ack_property_from_mqtt : Bytes → Decoded AckProperty
unfolding ack_property_by_id
ack_property_from_mqtt [] = err not_enough_bytes
ack_property_from_mqtt (b ∷ bs) = ack_property_by_id b (b ∷ bs)

-- `convert_to_mqtt` and `convert_from_mqtt` of a list of them.
unfoldable pub ack_properties_to_mqtt : List AckProperty → Bytes
ack_properties_to_mqtt = properties_to_mqtt ack_property_to_mqtt

unfoldable pub ack_properties_from_mqtt : Bytes → Decoded (List AckProperty)
ack_properties_from_mqtt = properties_from_mqtt ack_property_from_mqtt
