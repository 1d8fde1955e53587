-- ===== src/Protocol/Properties.antt =====
-- The property lists of src/protocol: every packet type has its own property type, and the code
-- for a list of them is the same each time (src/protocol/properties.rs and the modules
-- `properties` of connack.rs, disconnect.rs, suback.rs and unsuback.rs).
pub mod Laws
pub mod Fuel
use ruq.Base.{
  ℕ, zero, suc, ◌+◌, ◌%◌, ◌^◌, List, [], ◌∷◌, ◌++◌, length, ◌==◌, if◌then◌else◌, Outcome, ok,
  out_of_fuel, ◌>>=◌, slice, slice_from,
}
use ruq.Protocol.{Bytes, ConvertError, Decoded}
use ruq.Protocol.Vbi.{
  vbi_equals, vbi_below, vbi_plus, plus_vbi, vbi_minus, vbi_to_mqtt, vbi_from_mqtt,
}
use ruq.Protocol.Text.{text_to_mqtt, string_from_mqtt}

-- `UserProperty(k, v)` behind its first byte, in both directions.
unfoldable pub user_property_to : Bytes → Bytes → Bytes
user_property_to k v = text_to_mqtt k ++ text_to_mqtt v

unfoldable pub user_property_from : Bytes → Decoded (Bytes × Bytes)
user_property_from bytes = do
  at_key ← slice_from bytes 1
  (k, bc1) ← string_from_mqtt at_key
  at_value ← slice_from bytes (bc1 + 1)
  (v, bc2) ← string_from_mqtt at_value
  ok ((k, v), bc1 + bc2 + 1)

module _ {P : Type 0} (property_to : P → Bytes) where
  -- All properties, one after the other.
  unfoldable pub encode_all : List P → Bytes
  encode_all [] = []
  encode_all (p ∷ ps) = property_to p ++ encode_all ps

  -- `convert_to_mqtt` of a slice of properties: the length of the encodings, then the encodings.
  unfoldable pub properties_to_mqtt : List P → Bytes
  unfolding encode_all
  properties_to_mqtt ps = vbi_to_mqtt (length (encode_all ps) % 2 ^ 32) ++ encode_all ps

module _ {P : Type 0} (property_from : Bytes → Decoded P) where
  -- `while bytes.len() > 0`, at most `fuel` times.
  unfoldable pub decode_all : ℕ → Bytes → List P → Outcome ConvertError (List P)
  decode_all fuel [] properties = ok properties
  decode_all zero (b ∷ bs) properties = out_of_fuel
  decode_all (suc fuel) (b ∷ bs) properties = do
    (prop, bytes_read) ← property_from (b ∷ bs)
    rest ← slice_from (b ∷ bs) bytes_read
    decode_all fuel rest (properties ++ (prop ∷ []))

  -- `convert_from_mqtt` of a vector of properties. A property takes a byte at least, so as many
  -- rounds as there are bytes are enough.
  unfoldable pub properties_from_mqtt : Bytes → Decoded (List P)
  unfolding decode_all
  properties_from_mqtt bytes = do
    (bytelen, bytes_consumed) ← vbi_from_mqtt bytes
    if vbi_equals bytelen 0 then ok ([], bytes_consumed) else do
      body ← slice bytes bytes_consumed (plus_vbi bytes_consumed bytelen)
      properties ← decode_all (length body) body []
      ok (properties, plus_vbi bytes_consumed bytelen)
