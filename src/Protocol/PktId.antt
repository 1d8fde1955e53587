-- ===== src/Protocol/PktId.antt =====
-- src/protocol/mod.rs, `PktId`: a u16 that is not zero.
use ruq.Base.{ℕ, ◌^◌, ◌<◌, arith, ◌==◌, if◌then◌else◌, ok, err, ◌>>=◌, ok_or, get_range}
use ruq.Protocol.{Bytes, Decoded, Reads, not_enough_bytes, zero_pkt_id}
use ruq.Protocol.Text.{u16_to_be, from_be}

abbrev pub IsPktId : ℕ → Type 0
IsPktId id = (0 < id) × (id < 2 ^ 16)

-- `PktId::convert_to_mqtt`.
unfoldable pub pktid_to_mqtt : ℕ → Bytes
pktid_to_mqtt id = u16_to_be id

-- `PktId::convert_from_mqtt`.
unfoldable pub pktid_from_mqtt : Bytes → Decoded ℕ
pktid_from_mqtt bytes = do
  two ← ok_or not_enough_bytes (get_range bytes 0 2)
  let id = from_be two
  if id == 0 then err zero_pkt_id else ok (id, 2)

-- An identifier from 1 to 65535 is read back from its encoding, whatever follows.
pub pktid_from-pktid_to : (id : ℕ) → IsPktId id → Reads pktid_from_mqtt (pktid_to_mqtt id) id
unfolding pktid_from_mqtt pktid_to_mqtt
pktid_from-pktid_to id h rest = ground arith
