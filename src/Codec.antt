-- ===== src/Codec.antt =====
-- src/mqtt_codec.rs: packets out of a growing buffer, and into one.
pub mod Framing
pub mod RoundTrip
pub mod Append
pub mod Unread
pub mod Ends
pub mod Typed
use ruq.Base.{
  ℕ, ◌+◌, ◌^◌, Option, none, some, List, [], ◌∷◌, ◌++◌, length, take, drop, ltb, if◌then◌else◌,
  Outcome, ok, err, panic, out_of_fuel, ◌>>=◌,
}
use ruq.Protocol.{
  Bytes, ConvertError, Decoded, IoError, invalid_data, not_enough_bytes, zero_pkt_id, other,
}
use ruq.Protocol.Vbi.{vbi_from_mqtt}
use ruq.Protocol.Packet.{Packet, packet_to_mqtt, parse_fixed_header, parse_pkt}

-- `MAX`, the largest variable byte integer.
abbrev pub max_len : ℕ
max_len = 268_435_455

-- What `decode` answers, and the buffer that it leaves. `ok none` asks for more bytes. Behind a
-- panic the buffer means nothing.
abbrev pub Answer : Type 0
Answer = Outcome IoError (Option Packet) × Bytes

-- The `match` on the remaining length.
decode_behind_len : Bytes → Decoded ℕ → Answer
decode_behind_len src (ok (len, vbi_len)) =
    if ltb max_len len
    then (err invalid_data, src)
    else let total_pkt_len = 1 + vbi_len + len in
      if ltb (length src) total_pkt_len
      then (ok none, src)
      else (parse_pkt (take total_pkt_len src), drop total_pkt_len src)
decode_behind_len src (err not_enough_bytes) = (ok none, src)
decode_behind_len src (err e) = (err invalid_data, src)
decode_behind_len src panic = (panic, src)
decode_behind_len src out_of_fuel = (out_of_fuel, src)

-- `MqttCodec::decode`: below two bytes it waits; then the packet type is checked, and then the
-- length.
unfoldable pub decode : Bytes → Answer
unfolding decode_behind_len
decode [] = (ok none, [])
decode (b ∷ []) = (ok none, b ∷ [])
decode (b ∷ c ∷ src) = elim (parse_fixed_header b) [
  | none ↦ (err invalid_data, b ∷ c ∷ src)
  | some ty ↦ decode_behind_len (b ∷ c ∷ src) (vbi_from_mqtt (c ∷ src))
]

-- `MqttCodec::encode`: the bytes are appended to the buffer.
unfoldable pub encode : Packet → Bytes → Outcome IoError Bytes
encode item dst = do bytes ← packet_to_mqtt item; ok (dst ++ bytes)
