-- ===== src/Protocol/Reason/Suback.antt =====
-- src/protocol/suback.rs: the reason codes of SUBACK.
use ruq.Base.{ℕ, ◌≡◌, refl, ◌==◌, if◌then◌else◌, Outcome, ok, err, arith}
use ruq.Protocol.{ConvertError, other, invalid_reason}

pub data SubackReason : Type 0 where
  qos0 qos1 qos2 unspecified_error implementation_specific_error not_authorized : SubackReason
  topic_filter_invalid packet_identifier_in_use quota_exceeded : SubackReason
  shared_subs_not_supported sub_ids_not_supported wildcard_subs_not_supported : SubackReason

-- `SubackReason::try_from(u8)`.
unfoldable pub suback_reason_try_from : ℕ → Outcome ConvertError SubackReason
suback_reason_try_from b =
    if b == 0
    then ok qos0
    else if b == 1
    then ok qos1
    else if b == 2
    then ok qos2
    else if b == 128
    then ok unspecified_error
    else if b == 131
    then ok implementation_specific_error
    else if b == 135
    then ok not_authorized
    else if b == 143
    then ok topic_filter_invalid
    else if b == 145
    then ok packet_identifier_in_use
    else if b == 151
    then ok quota_exceeded
    else if b == 158
    then ok shared_subs_not_supported
    else if b == 161
    then ok sub_ids_not_supported
    else if b == 162
    then ok wildcard_subs_not_supported
    else err (other (invalid_reason b))

-- The value of each reason in the protocol.
unfoldable pub suback_reason_to_u8 : SubackReason → ℕ
suback_reason_to_u8 qos0 = 0
suback_reason_to_u8 qos1 = 1
suback_reason_to_u8 qos2 = 2
suback_reason_to_u8 unspecified_error = 128
suback_reason_to_u8 implementation_specific_error = 131
suback_reason_to_u8 not_authorized = 135
suback_reason_to_u8 topic_filter_invalid = 143
suback_reason_to_u8 packet_identifier_in_use = 145
suback_reason_to_u8 quota_exceeded = 151
suback_reason_to_u8 shared_subs_not_supported = 158
suback_reason_to_u8 sub_ids_not_supported = 161
suback_reason_to_u8 wildcard_subs_not_supported = 162

-- Every reason is read back from its byte.
pub suback_reason_try_from-to_u8 :
    (r : SubackReason) → suback_reason_try_from (suback_reason_to_u8 r) ≡ ok r
unfolding suback_reason_try_from suback_reason_to_u8
suback_reason_try_from-to_u8 qos0 = refl
suback_reason_try_from-to_u8 _ = refl

-- A byte is read as a reason only if it is the byte of that reason.
pub suback_reason_to_u8-try_from :
    (b : ℕ) (r : SubackReason) → suback_reason_try_from b ≡ ok r → suback_reason_to_u8 r ≡ b
unfolding suback_reason_try_from suback_reason_to_u8
suback_reason_to_u8-try_from b r e = ground arith
