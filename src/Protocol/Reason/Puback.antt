-- ===== src/Protocol/Reason/Puback.antt =====
-- src/protocol/puback.rs: the reason codes of PUBACK.
use ruq.Base.{ℕ, ◌≡◌, refl, ◌==◌, if◌then◌else◌, Outcome, ok, err, arith}
use ruq.Protocol.{ConvertError, other, invalid_reason}

pub data PubackReason : Type 0 where
  success no_matching_subscibers unspecified_error implementation_specific_error : PubackReason
  not_authorized topic_name_invalid packet_identifier_in_use quota_exceeded : PubackReason
  payload_format_invalid : PubackReason

-- `PubackReason::try_from(u8)`.
unfoldable pub puback_reason_try_from : ℕ → Outcome ConvertError PubackReason
puback_reason_try_from b =
    if b == 0
    then ok success
    else if b == 16
    then ok no_matching_subscibers
    else if b == 128
    then ok unspecified_error
    else if b == 131
    then ok implementation_specific_error
    else if b == 135
    then ok not_authorized
    else if b == 144
    then ok topic_name_invalid
    else if b == 145
    then ok packet_identifier_in_use
    else if b == 151
    then ok quota_exceeded
    else if b == 153
    then ok payload_format_invalid
    else err (other (invalid_reason b))

-- `u8::from(PubackReason)`.
unfoldable pub puback_reason_to_u8 : PubackReason → ℕ
puback_reason_to_u8 success = 0
puback_reason_to_u8 no_matching_subscibers = 16
puback_reason_to_u8 unspecified_error = 128
puback_reason_to_u8 implementation_specific_error = 131
puback_reason_to_u8 not_authorized = 135
puback_reason_to_u8 topic_name_invalid = 144
puback_reason_to_u8 packet_identifier_in_use = 145
puback_reason_to_u8 quota_exceeded = 151
puback_reason_to_u8 payload_format_invalid = 153

-- Every reason is read back from its byte.
pub puback_reason_try_from-to_u8 :
    (r : PubackReason) → puback_reason_try_from (puback_reason_to_u8 r) ≡ ok r
unfolding puback_reason_try_from puback_reason_to_u8
puback_reason_try_from-to_u8 success = refl
puback_reason_try_from-to_u8 _ = refl

-- A byte is read as a reason only if it is the byte of that reason.
pub puback_reason_to_u8-try_from :
    (b : ℕ) (r : PubackReason) → puback_reason_try_from b ≡ ok r → puback_reason_to_u8 r ≡ b
unfolding puback_reason_try_from puback_reason_to_u8
puback_reason_to_u8-try_from b r e = ground arith
