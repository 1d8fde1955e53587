-- ===== src/Protocol/Ack/Connack.antt =====
-- src/protocol/connack.rs: the CONNACK packet.
use ruq.Base.{
  ℕ, ◌+◌, Bool, true, false, List, length, ltb, ◌==◌, if◌then◌else◌, Outcome, ok, err, ◌>>=◌, index,
  slice_from,
}
use ruq.Protocol.{Bytes, ConvertError, Decoded, not_enough_bytes, other, invalid_flags}
use ruq.Protocol.Vbi.{vbi_plus, vbi_from_mqtt}
use ruq.Protocol.Reason.Connack.{ConnackReason, connack_reason_try_from}
use ruq.Protocol.Ack.{AckProperty, ack_properties_from_mqtt}

pub record ConnackFlags : Type 0 where
  pub session_present : Bool

pub record Connack : Type 0 where
  pub flags : ConnackFlags
  pub reason : ConnackReason
  pub properties : List AckProperty

-- `ConnackFlags::try_from(u8)`.
unfoldable pub connack_flags_try_from : ℕ → Outcome ConvertError ConnackFlags
connack_flags_try_from b =
    if b == 0
    then ok (record { session_present = false })
    else if b == 1
    then ok (record { session_present = true })
    else err (other (invalid_flags b))

-- `Connack::convert_from_mqtt`.
unfoldable pub connack_from_mqtt : Bytes → Decoded Connack
connack_from_mqtt buf = do
  (remaining_len, vbi_bytes_read) ← vbi_from_mqtt (← slice_from buf 1)
  let at_flags = 1 + vbi_bytes_read
  if ltb (length buf) (vbi_plus remaining_len at_flags) then err not_enough_bytes else do
    flags ← connack_flags_try_from (← index buf at_flags)
    reason ← connack_reason_try_from (← index buf (at_flags + 1))
    (properties, props_bytes_read) ← ack_properties_from_mqtt (← slice_from buf (at_flags + 1 + 1))
    ok (
      record { flags = flags; reason = reason; properties = properties },
      at_flags + 1 + 1 + props_bytes_read,
    )
