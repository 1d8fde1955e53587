-- ===== src/Protocol/Disconnect/Laws.antt =====
-- src/protocol/disconnect.rs: the properties are read back, and what becomes of the reason.
use ruq.Base.{
  ◌^◌, ◌<◌, ◌≤◌, ◌≡◌, refl, List, [], ◌∷◌, ◌++◌, arith, All, length, ok, length-append, ◌%◌,
}
use ruq.Protocol.{Bytes, Reads}
use ruq.Protocol.Vbi.{vbi_to_mqtt, vbi_from_mqtt}
use ruq.Protocol.Text.{text_to_mqtt}
use ruq.Protocol.Text.Laws.{string_from-text_to}
use ruq.Protocol.Frame.{frame}
use ruq.Protocol.Properties.{encode_all, properties_to_mqtt, user_property_to}
use ruq.Protocol.Properties.Laws.{
  IsText, IsReadBack, user_property_from-to, properties_from-properties_to,
}
use ruq.Protocol.Reason.Disconnect.{DisconnectReason, normal, disconnect_reason_try_from}
use ruq.Protocol.Disconnect.{
  DisconnectProperty, session_expiry_interval, reason_string, user_property,
  disconnect_property_to_mqtt, disconnect_property_from_mqtt, disconnect_properties_to_mqtt,
  disconnect_properties_from_mqtt, disconnect_to_mqtt, disconnect_from_mqtt, set_reason,
  disconnect_new,
}

-- What a server may send: text that the encoder does not cut, and no expiry interval.
abbrev pub IsServerText : DisconnectProperty → Type 0
IsServerText (session_expiry_interval v) = ⊥
IsServerText (reason_string s) = IsText s
IsServerText (user_property k v) = IsText k × IsText v

disconnect_property_from-to :
    (p : DisconnectProperty)
    → IsServerText p
    → Reads disconnect_property_from_mqtt (disconnect_property_to_mqtt p) p
unfolding disconnect_property_from_mqtt disconnect_property_to_mqtt
disconnect_property_from-to (session_expiry_interval v) h rest = absurd h
disconnect_property_from-to (reason_string s) h rest =
    ground (arith, string_from-text_to s h.short h.valid rest)
disconnect_property_from-to (user_property k v) (hk, hv) rest =
    ground (arith, user_property_from-to 0x26 k v rest hk hv)

disconnect_property_long :
    (p : DisconnectProperty) → IsServerText p → 3 ≤ length (disconnect_property_to_mqtt p)
unfolding disconnect_property_to_mqtt text_to_mqtt user_property_to
disconnect_property_long (session_expiry_interval v) h = absurd h
disconnect_property_long (reason_string s) h = omega arith
disconnect_property_long (user_property k v) h =
    omega (arith, length-append (text_to_mqtt k) (text_to_mqtt v))

pub record AreServerTexts (ps : List DisconnectProperty) : Type 0 where
  pub each : All IsServerText ps
  pub short : length (encode_all disconnect_property_to_mqtt ps) < 2 ^ 28

disconnect-IsReadBack :
    (ps : List DisconnectProperty)
    → All IsServerText ps
    → All (IsReadBack disconnect_property_to_mqtt disconnect_property_from_mqtt) ps
disconnect-IsReadBack [] h = tt
disconnect-IsReadBack (p ∷ ps) (h, hs) = (
  record {
    reads = disconnect_property_from-to p h;
    not_empty = omega (arith, disconnect_property_long p h);
  },
  disconnect-IsReadBack ps hs,
)

-- A list of such properties is read back from its encoding, whatever follows.
pub disconnect_properties_from-to :
    (ps : List DisconnectProperty)
    → AreServerTexts ps
    → Reads disconnect_properties_from_mqtt (disconnect_properties_to_mqtt ps) ps
unfolding disconnect_properties_from_mqtt disconnect_properties_to_mqtt
disconnect_properties_from-to ps h =
    properties_from-properties_to disconnect_property_to_mqtt disconnect_property_from_mqtt ps
      (disconnect-IsReadBack ps h.each) h.short

-- A list that is not empty takes three bytes at least behind its length.
pub disconnect_properties_long :
    (p : DisconnectProperty) (ps : List DisconnectProperty)
    → AreServerTexts (p ∷ ps)
    → 3 ≤ length (disconnect_properties_to_mqtt (p ∷ ps))
unfolding disconnect_properties_to_mqtt properties_to_mqtt encode_all
disconnect_properties_long p ps h = omega (
  arith,
  disconnect_property_long p h.each.0,
  length-append (disconnect_property_to_mqtt p) (encode_all disconnect_property_to_mqtt ps),
  length-append
      (vbi_to_mqtt (
        length (disconnect_property_to_mqtt p ++ encode_all disconnect_property_to_mqtt ps)
        % 2 ^ 32))
      (disconnect_property_to_mqtt p ++ encode_all disconnect_property_to_mqtt ps),
)

-- The bytes of a packet without properties.
bytes_without :
    (reason : DisconnectReason)
    → disconnect_to_mqtt (set_reason reason disconnect_new) ≡ 0xe0 ∷ 1 ∷ 0 ∷ []
unfolding disconnect_to_mqtt disconnect_properties_to_mqtt properties_to_mqtt frame vbi_to_mqtt
    set_reason disconnect_new
bytes_without reason = refl

read_without :
    (rest : Bytes)
    → disconnect_from_mqtt (0xe0 ∷ 1 ∷ 0 ∷ rest)
      ≡ ok (record { reason = normal; properties = [] }, 3)
unfolding disconnect_from_mqtt vbi_from_mqtt disconnect_reason_try_from
read_without rest = ground arith

-- The encoder writes no reason: of a packet without properties, whatever reason was set, the decoder
-- makes one with the normal reason.
pub disconnect_reason_lost :
    (reason : DisconnectReason) (rest : Bytes)
    → disconnect_from_mqtt (disconnect_to_mqtt (set_reason reason disconnect_new) ++ rest)
      ≡ ok (disconnect_new, 3)
unfolding disconnect_new
disconnect_reason_lost reason rest = rw (bytes_without reason) (read_without rest)
