-- ===== src/Protocol/Reason/Unsuback.antt =====
-- src/protocol/unsuback.rs: the reason codes of UNSUBACK.
use ruq.Base.{ℕ, ◌≡◌, refl, ◌==◌, if◌then◌else◌, Outcome, ok, err, arith}
use ruq.Protocol.{ConvertError, other, invalid_reason}

pub data UnsubackReason : Type 0 where
  success no_subscription_existed unspecified_error implementation_specific_error : UnsubackReason
  not_authorized topic_filter_invalid packet_identifier_in_use : UnsubackReason

-- `UnsubackReason::try_from(u8)`.
unfoldable pub unsuback_reason_try_from : ℕ → Outcome ConvertError UnsubackReason
unsuback_reason_try_from b =
    if b == 0
    then ok success
    else if b == 17
    then ok no_subscription_existed
    else if b == 128
    then ok unspecified_error
    else if b == 131
    then ok implementation_specific_error
    else if b == 135
    then ok not_authorized
    else if b == 143
    then ok topic_filter_invalid
    else if b == 145
    then ok packet_identifier_in_use
    else err (other (invalid_reason b))

-- The value of each reason in the protocol.
unfoldable pub unsuback_reason_to_u8 : UnsubackReason → ℕ
unsuback_reason_to_u8 success = 0
unsuback_reason_to_u8 no_subscription_existed = 17
unsuback_reason_to_u8 unspecified_error = 128
unsuback_reason_to_u8 implementation_specific_error = 131
unsuback_reason_to_u8 not_authorized = 135
unsuback_reason_to_u8 topic_filter_invalid = 143
unsuback_reason_to_u8 packet_identifier_in_use = 145

-- Every reason is read back from its byte.
pub unsuback_reason_try_from-to_u8 :
    (r : UnsubackReason) → unsuback_reason_try_from (unsuback_reason_to_u8 r) ≡ ok r
unfolding unsuback_reason_try_from unsuback_reason_to_u8
unsuback_reason_try_from-to_u8 success = refl
unsuback_reason_try_from-to_u8 _ = refl

-- A byte is read as a reason only if it is the byte of that reason.
pub unsuback_reason_to_u8-try_from :
    (b : ℕ) (r : UnsubackReason) → unsuback_reason_try_from b ≡ ok r → unsuback_reason_to_u8 r ≡ b
unfolding unsuback_reason_try_from unsuback_reason_to_u8
unsuback_reason_to_u8-try_from b r e = ground arith
