-- ===== src/Protocol/Qos.antt =====
-- src/protocol/qos.rs, and `PublishFlags` of src/protocol/publish.rs.
use ruq.Base.{
  ℕ, ◌+◌, ◌*◌, ◌/◌, ◌%◌, ◌<◌, ◌≡◌, Bool, true, false, arith, bit_and, ◌==◌, if◌then◌else◌, Outcome,
  ok, err, ◌>>=◌,
}
use ruq.Base.Bits.{bit_and-8, bit_and-3, bit_and-1}
use ruq.Protocol.{ConvertError, IsByte, other, invalid_qos}

pub data QoS : Type 0 where
  at_most_once at_least_once exactly_once : QoS

-- `u8::from(QoS)`.
unfoldable pub qos_to_u8 : QoS → ℕ
qos_to_u8 at_most_once = 0
qos_to_u8 at_least_once = 1
qos_to_u8 exactly_once = 2

-- `QoS::try_from(u8)`.
unfoldable pub qos_try_from : ℕ → Outcome ConvertError QoS
qos_try_from u =
    if u == 0
    then ok at_most_once
    else if u == 1
    then ok at_least_once
    else if u == 2
    then ok exactly_once
    else err (other (invalid_qos u))

-- `self.flags.qos > QoS::AtMostOnce`, the derived order.
abbrev pub above_at_most_once : QoS → Bool
above_at_most_once at_most_once = false
above_at_most_once at_least_once = true
above_at_most_once exactly_once = true

pub record PublishFlags : Type 0 where
  pub dup : Bool
  pub qos : QoS
  pub retain : Bool

-- `PublishFlags::try_from(u8)`.
unfoldable pub flags_try_from : ℕ → Outcome ConvertError PublishFlags
unfolding qos_try_from
flags_try_from byte = do
  qos ← qos_try_from (bit_and (byte / 2) 3)
  ok (record { dup = bit_and byte 8 == 8; qos = qos; retain = bit_and byte 1 == 1 })

flags_qos_bits : QoS → ℕ
flags_qos_bits at_most_once = 0
flags_qos_bits at_least_once = 2
flags_qos_bits exactly_once = 4

-- `u8::from(PublishFlags)`.
unfoldable pub flags_to_u8 : PublishFlags → ℕ
unfolding flags_qos_bits
flags_to_u8 flags =
    (if flags.dup then 8 else 0) + flags_qos_bits flags.qos + (if flags.retain then 1 else 0)

-- The byte has its value in the low four bits.
pub flags_to_u8-lt : (flags : PublishFlags) → flags_to_u8 flags < 16
unfolding flags_to_u8
flags_to_u8-lt flags = ground arith

-- The flags are read back from their byte, whatever packet type below 16 stands in the upper half.
pub flags_try_from-to_u8 :
    (ty : ℕ) (flags : PublishFlags)
    → ty < 16
    → flags_try_from (ty * 16 + flags_to_u8 flags) ≡ ok flags
unfolding flags_try_from flags_to_u8
flags_try_from-to_u8 ty flags h = ground (
  arith,
  bit_and-8 (ty * 16 + flags_to_u8 flags),
  bit_and-3 ((ty * 16 + flags_to_u8 flags) / 2),
  bit_and-1 (ty * 16 + flags_to_u8 flags),
)

-- Exactly the byte values with both QoS bits set are refused.
pub flags_try_from_refuses :
    (b : ℕ) → IsByte b → b / 2 % 4 ≡ 3 → flags_try_from b ≡ err (other (invalid_qos 3))
unfolding flags_try_from
flags_try_from_refuses b hb h = ground (arith, bit_and-3 (b / 2))
