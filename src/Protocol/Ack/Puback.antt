-- ===== src/Protocol/Ack/Puback.antt =====
-- src/protocol/puback.rs: the PUBACK packet, with property code of its own.
pub mod Ends
pub mod Pairs
use ruq.Base.{
  ℕ, zero, suc, ◌+◌, Option, none, some, List, [], ◌∷◌, ◌++◌, length, ltb, ◌==◌, if◌then◌else◌,
  Outcome, ok, err, out_of_fuel, ◌>>=◌, index, slice_from, get_from, get_range,
}
use ruq.Protocol.{Bytes, ConvertError, Decoded, not_enough_bytes, other, property_not_implemented}
use ruq.Protocol.Vbi.{vbi_equals, vbi_below, vbi_plus, plus_vbi, vbi_minus, vbi_from_mqtt}
use ruq.Protocol.Text.{u16_to_be, text_to_mqtt, string_from_mqtt}
use ruq.Protocol.PktId.{pktid_from_mqtt}
use ruq.Protocol.Frame.{frame}
use ruq.Protocol.Properties.{user_property_to, user_property_from}
use ruq.Protocol.Reason.Puback.{PubackReason, success, puback_reason_try_from, puback_reason_to_u8}

pub record PubackProperties : Type 0 where
  pub reason_string : Option Bytes
  pub user_properties : List (Bytes × Bytes)

-- `Default::default()`.
abbrev pub no_properties : PubackProperties
no_properties = record { reason_string = none; user_properties = [] }

pub record Puback : Type 0 where
  pub properties : PubackProperties
  pub pktid : ℕ
  pub reason : PubackReason

-- `Puback::new`.
unfoldable pub puback_new : ℕ → Puback
puback_new pktid = record { properties = no_properties; pktid = pktid; reason = success }

reason_part : Option Bytes → Bytes
reason_part none = []
reason_part (some s) = 0x1f ∷ text_to_mqtt s

-- The pairs, one after the other.
user_part : List (Bytes × Bytes) → Bytes
user_part [] = []
user_part ((k, v) ∷ rest) = user_property_to k v ++ user_part rest

-- `PubackProperties::convert_to_mqtt`: no length in front, and one 0x26 for all the pairs.
unfoldable pub puback_properties_to_mqtt : PubackProperties → Bytes
unfolding reason_part user_part
puback_properties_to_mqtt p =
    reason_part p.reason_string
    ++ ((if ltb 0 (length p.user_properties) then 0x26 ∷ [] else []) ++ user_part p.user_properties)

-- `Puback::convert_to_mqtt`.
unfoldable pub puback_to_mqtt : Puback → Bytes
puback_to_mqtt p =
    frame 0x40
      (u16_to_be p.pktid ++ (puback_reason_to_u8 p.reason ∷ puback_properties_to_mqtt p.properties))

-- One property of the slice: the properties so far with it, and `bytes_read`.
unfoldable pub read_property : Bytes → PubackProperties → Decoded PubackProperties
read_property [] properties = err not_enough_bytes
read_property (b ∷ bs) properties =
    if b == 0x1f
    then (do
      (s, property_bytes_read) ← string_from_mqtt (← slice_from (b ∷ bs) 1)
      ok (record properties { reason_string = some s }, property_bytes_read + 1))
    else if b == 0x26
    then (do
      (kv, n) ← user_property_from (b ∷ bs)
      ok (record properties { user_properties = properties.user_properties ++ (kv ∷ []) }, n))
    else err (other (property_not_implemented b))

-- `while let Some(slice) = bytes`: the next slice starts one byte behind the property.
unfoldable pub read_properties :
    ℕ → Option Bytes → PubackProperties → Outcome ConvertError PubackProperties
read_properties fuel none properties = ok properties
read_properties zero (some slice) properties = out_of_fuel
read_properties (suc fuel) (some slice) properties = do
  (properties', bytes_read) ← read_property slice properties
  read_properties fuel (get_from slice (bytes_read + 1)) properties'

-- `PubackProperties::convert_from_mqtt`. Each round leaves a shorter slice, or none.
unfoldable pub puback_properties_from_mqtt : Bytes → Decoded PubackProperties
unfolding read_property read_properties
puback_properties_from_mqtt buf = do
  (bytelen, bytes_consumed) ← vbi_from_mqtt buf
  if vbi_equals bytelen 0 then ok (no_properties, bytes_consumed) else do
    let slice = get_range buf bytes_consumed (plus_vbi bytes_consumed bytelen)
    properties ← read_properties (bytelen + 1) slice no_properties
    ok (properties, plus_vbi bytes_consumed bytelen)

-- `Puback::convert_from_mqtt`: a reason byte only behind a remaining length other than 2, and
-- properties only from 4 on.
unfoldable pub puback_reason_at : ℕ → Bytes → ℕ → Decoded PubackReason
puback_reason_at remaining_len buf at_reason =
    if vbi_equals remaining_len 2
    then (do r ← puback_reason_try_from 0; ok (r, at_reason))
    else (do r ← puback_reason_try_from (← index buf at_reason); ok (r, at_reason + 1))

puback_properties_at : ℕ → Bytes → ℕ → Decoded PubackProperties
puback_properties_at remaining_len buf at_props =
    if vbi_below remaining_len 4 then ok (no_properties, at_props) else (do
      (properties, props_bytes_read) ← puback_properties_from_mqtt (← slice_from buf at_props)
      ok (properties, at_props + props_bytes_read))

unfoldable pub puback_from_mqtt : Bytes → Decoded Puback
unfolding puback_reason_at puback_properties_at
puback_from_mqtt buf = do
  (remaining_len, vbi_bytes_read) ← vbi_from_mqtt (← slice_from buf 1)
  let at_pktid = 1 + vbi_bytes_read
  if ltb (length buf) (vbi_plus remaining_len at_pktid) then err not_enough_bytes else do
    (pktid, pktid_bytes_read) ← pktid_from_mqtt (← slice_from buf at_pktid)
    (reason, at_props) ← puback_reason_at remaining_len buf (at_pktid + pktid_bytes_read)
    (properties, bytes_read) ← puback_properties_at remaining_len buf at_props
    ok (record { properties = properties; pktid = pktid; reason = reason }, bytes_read)
