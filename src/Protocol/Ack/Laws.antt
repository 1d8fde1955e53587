-- ===== src/Protocol/Ack/Laws.antt =====
-- The properties of CONNACK, SUBACK and UNSUBACK are read back.
use ruq.Base.{◌^◌, ◌<◌, List, [], ◌∷◌, arith, All, length}
use ruq.Protocol.{Reads}
use ruq.Protocol.Text.Laws.{string_from-text_to}
use ruq.Protocol.Properties.{encode_all}
use ruq.Protocol.Properties.Laws.{
  IsText, IsReadBack, user_property_from-to, properties_from-properties_to,
}
use ruq.Protocol.Ack.{
  AckProperty, reason_string, user_property, ack_property_to_mqtt, ack_property_from_mqtt,
  ack_properties_to_mqtt, ack_properties_from_mqtt,
}

-- The strings of the property are text that the encoder does not cut.
abbrev pub IsAckText : AckProperty → Type 0
IsAckText (reason_string s) = IsText s
IsAckText (user_property k v) = IsText k × IsText v

ack_property_from-to :
    (p : AckProperty) → IsAckText p → Reads ack_property_from_mqtt (ack_property_to_mqtt p) p
unfolding ack_property_from_mqtt ack_property_to_mqtt
ack_property_from-to (reason_string s) h rest =
    ground (arith, string_from-text_to s h.short h.valid rest)
ack_property_from-to (user_property k v) (hk, hv) rest =
    ground (arith, user_property_from-to 0x26 k v rest hk hv)

ack_property_not_empty : (p : AckProperty) → 0 < length (ack_property_to_mqtt p)
unfolding ack_property_to_mqtt
ack_property_not_empty p = omega arith

-- Such a list, short enough for the length in front of it.
pub record AreAckTexts (ps : List AckProperty) : Type 0 where
  pub each : All IsAckText ps
  pub short : length (encode_all ack_property_to_mqtt ps) < 2 ^ 28

ack-IsReadBack :
    (ps : List AckProperty)
    → All IsAckText ps
    → All (IsReadBack ack_property_to_mqtt ack_property_from_mqtt) ps
ack-IsReadBack [] h = tt
ack-IsReadBack (p ∷ ps) (h, hs) = (
  record { reads = ack_property_from-to p h; not_empty = ack_property_not_empty p },
  ack-IsReadBack ps hs,
)

-- A list of such properties is read back from its encoding, whatever follows.
pub ack_properties_from-to :
    (ps : List AckProperty)
    → AreAckTexts ps
    → Reads ack_properties_from_mqtt (ack_properties_to_mqtt ps) ps
unfolding ack_properties_from_mqtt ack_properties_to_mqtt
ack_properties_from-to ps h =
    properties_from-properties_to ack_property_to_mqtt ack_property_from_mqtt ps
      (ack-IsReadBack ps h.each) h.short
