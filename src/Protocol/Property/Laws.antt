-- ===== src/Protocol/Property/Laws.antt =====
-- Which properties of a PUBLISH packet are read back.
use ruq.Base.{ℕ, ◌^◌, ◌<◌, ◌≡◌, refl, ◌++◌, arith, length, ok}
use ruq.Protocol.{Bytes, Reads, IsByte}
use ruq.Protocol.Text.Laws.{string_from-text_to, vec_from-text_to}
use ruq.Protocol.Properties.Laws.{IsText, user_property_from-to}
use ruq.Protocol.Property.{
  Property, payload_format_id, message_expiry_interval, response_topic, correlation_data,
  user_property, property_to_mqtt, property_from_mqtt,
}

-- The properties that survive the wire: no expiry interval, and no string that the length cuts.
abbrev pub IsSendable : Property → Type 0
IsSendable (payload_format_id v) = IsByte v
IsSendable (message_expiry_interval v) = ⊥
IsSendable (response_topic s) = IsText s
IsSendable (correlation_data b) = length b < 2 ^ 16
IsSendable (user_property k v) = IsText k × IsText v

-- A property that is not an expiry interval and whose strings the encoder does not cut is read back
-- from its encoding, whatever follows.
pub property_from-property_to :
    (p : Property) → IsSendable p → Reads property_from_mqtt (property_to_mqtt p) p
unfolding property_from_mqtt property_to_mqtt
property_from-property_to (payload_format_id v) h rest = refl
property_from-property_to (message_expiry_interval v) h rest = absurd h
property_from-property_to (response_topic s) h rest =
    ground (arith, string_from-text_to s h.short h.valid rest)
property_from-property_to (correlation_data b) h rest = ground (arith, vec_from-text_to b h rest)
property_from-property_to (user_property k v) (hk, hv) rest =
    ground (arith, user_property_from-to 0x26 k v rest hk hv)

-- The five bytes of a message expiry interval are read as the interval, but the count returned is
-- four.
pub expiry_misread :
    (v : ℕ) (rest : Bytes)
    → v < 2 ^ 32
    → property_from_mqtt (property_to_mqtt (message_expiry_interval v) ++ rest)
      ≡ ok (message_expiry_interval v, 4)
unfolding property_from_mqtt property_to_mqtt
expiry_misread v rest h = ground arith

pub length-property_to : (p : Property) → 0 < length (property_to_mqtt p)
unfolding property_to_mqtt
length-property_to p = omega arith
