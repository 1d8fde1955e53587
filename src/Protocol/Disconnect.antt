-- ===== src/Protocol/Disconnect.antt =====
-- src/protocol/disconnect.rs: the DISCONNECT packet.
pub mod Ends
pub mod Laws
use ruq.Base.{
  ℕ, ◌+◌, List, [], ◌∷◌, ◌++◌, length, ltb, ◌==◌, if◌then◌else◌, ok, err, ◌>>=◌, index, slice_from,
}
use ruq.Protocol.{
  Bytes, Decoded, not_enough_bytes, other, property_not_implemented, expiry_sent_by_server,
}
use ruq.Protocol.Vbi.{vbi_equals, vbi_below, vbi_plus, plus_vbi, vbi_minus, vbi_from_mqtt}
use ruq.Protocol.Text.{u32_to_be, text_to_mqtt, string_from_mqtt}
use ruq.Protocol.Frame.{frame}
use ruq.Protocol.Properties.{
  user_property_to, user_property_from, properties_to_mqtt, properties_from_mqtt,
}
use ruq.Protocol.Reason.Disconnect.{DisconnectReason, normal, disconnect_reason_try_from}

pub data DisconnectProperty : Type 0 where
  session_expiry_interval : ℕ → DisconnectProperty
  reason_string : Bytes → DisconnectProperty
  user_property : Bytes → Bytes → DisconnectProperty

pub record Disconnect : Type 0 where
  pub reason : DisconnectReason
  pub properties : List DisconnectProperty

-- `Disconnect::new`, `set_reason` and `set_property`.
unfoldable pub disconnect_new : Disconnect
disconnect_new = record { reason = normal; properties = [] }

unfoldable pub set_reason : DisconnectReason → Disconnect → Disconnect
set_reason reason d = record d { reason = reason }

unfoldable pub set_property : DisconnectProperty → Disconnect → Disconnect
set_property property d = record d { properties = d.properties ++ (property ∷ []) }

-- `DisconnectProperty::id`.
abbrev pub disconnect_property_id : DisconnectProperty → ℕ
disconnect_property_id (session_expiry_interval v) = 0x11
disconnect_property_id (reason_string s) = 0x1f
disconnect_property_id (user_property k v) = 0x26

disconnect_property_body : DisconnectProperty → Bytes
disconnect_property_body (session_expiry_interval v) = u32_to_be v
disconnect_property_body (reason_string s) = text_to_mqtt s
disconnect_property_body (user_property k v) = user_property_to k v

-- `DisconnectProperty::convert_to_mqtt`.
unfoldable pub disconnect_property_to_mqtt : DisconnectProperty → Bytes
unfolding disconnect_property_body
disconnect_property_to_mqtt p = disconnect_property_id p ∷ disconnect_property_body p

disconnect_property_by_id : ℕ → Bytes → Decoded DisconnectProperty
disconnect_property_by_id id buf =
    if id == 0x11
    then err (other expiry_sent_by_server)
    else if id == 0x1f
    then (do
      (s, bytes_consumed) ← string_from_mqtt (← slice_from buf 1)
      ok (reason_string s, bytes_consumed + 1))
    else if id == 0x26
    then (do ((k, v), n) ← user_property_from buf; ok (user_property k v, n))
    else err (other (property_not_implemented id))

-- `DisconnectProperty::convert_from_mqtt`.
unfoldable pub disconnect_property_from_mqtt : Bytes → Decoded DisconnectProperty
unfolding disconnect_property_by_id
disconnect_property_from_mqtt [] = err not_enough_bytes
disconnect_property_from_mqtt (b ∷ bs) = disconnect_property_by_id b (b ∷ bs)

-- Both directions for a list of them.
unfoldable pub disconnect_properties_to_mqtt : List DisconnectProperty → Bytes
disconnect_properties_to_mqtt = properties_to_mqtt disconnect_property_to_mqtt

unfoldable pub disconnect_properties_from_mqtt : Bytes → Decoded (List DisconnectProperty)
disconnect_properties_from_mqtt = properties_from_mqtt disconnect_property_from_mqtt

-- `Disconnect::convert_to_mqtt`: the reason is not written.
unfoldable pub disconnect_to_mqtt : Disconnect → Bytes
disconnect_to_mqtt d = frame 0xe0 (disconnect_properties_to_mqtt d.properties)

unfoldable pub disconnect_reason_at : ℕ → Bytes → ℕ → Decoded DisconnectReason
disconnect_reason_at remaining_len buf at_reason =
    if vbi_equals remaining_len 0
    then ok (normal, at_reason)
    else (do r ← disconnect_reason_try_from (← index buf at_reason); ok (r, at_reason + 1))

disconnect_properties_at : ℕ → Bytes → ℕ → Decoded (List DisconnectProperty)
disconnect_properties_at remaining_len buf at_props =
    if vbi_below remaining_len 4 then ok ([], at_props) else (do
      (properties, props_bytes_read) ← disconnect_properties_from_mqtt (← slice_from buf at_props)
      ok (properties, at_props + props_bytes_read))

-- `Disconnect::convert_from_mqtt`.
unfoldable pub disconnect_from_mqtt : Bytes → Decoded Disconnect
unfolding disconnect_reason_at disconnect_properties_at
disconnect_from_mqtt buf = do
  (remaining_len, vbi_bytes_read) ← vbi_from_mqtt (← slice_from buf 1)
  let at_reason = 1 + vbi_bytes_read
  if ltb (length buf) (vbi_plus remaining_len at_reason) then err not_enough_bytes else do
    (reason, at_props) ← disconnect_reason_at remaining_len buf at_reason
    (properties, bytes_read) ← disconnect_properties_at remaining_len buf at_props
    ok (record { reason = reason; properties = properties }, bytes_read)
