-- ===== src/Protocol/Reason/Connack.antt =====
-- src/protocol/connack.rs: the reason codes of CONNACK.
use ruq.Base.{ℕ, ◌≡◌, refl, ◌==◌, if◌then◌else◌, Outcome, ok, err, arith}
use ruq.Protocol.{ConvertError, other, invalid_reason}

pub data ConnackReason : Type 0 where
  success unspecified_error malformed_packet protocol_error : ConnackReason
  implementation_specific_error unsupported_protocol_version : ConnackReason
  client_identifier_not_valid bad_user_name_or_password not_authorized : ConnackReason
  server_unavailable server_busy banned bad_authentication_method topic_name_invalid : ConnackReason
  packet_too_large quota_exceeded payload_format_invalid retain_not_supported : ConnackReason
  qos_not_supported use_another_server server_moved connection_rate_exceeded : ConnackReason

-- `ConnackReason::try_from(u8)`.
unfoldable pub connack_reason_try_from : ℕ → Outcome ConvertError ConnackReason
connack_reason_try_from b =
    if b == 0
    then ok success
    else if b == 128
    then ok unspecified_error
    else if b == 129
    then ok malformed_packet
    else if b == 130
    then ok protocol_error
    else if b == 131
    then ok implementation_specific_error
    else if b == 132
    then ok unsupported_protocol_version
    else if b == 133
    then ok client_identifier_not_valid
    else if b == 134
    then ok bad_user_name_or_password
    else if b == 135
    then ok not_authorized
    else if b == 136
    then ok server_unavailable
    else if b == 137
    then ok server_busy
    else if b == 138
    then ok banned
    else if b == 140
    then ok bad_authentication_method
    else if b == 144
    then ok topic_name_invalid
    else if b == 149
    then ok packet_too_large
    else if b == 151
    then ok quota_exceeded
    else if b == 153
    then ok payload_format_invalid
    else if b == 154
    then ok retain_not_supported
    else if b == 155
    then ok qos_not_supported
    else if b == 156
    then ok use_another_server
    else if b == 157
    then ok server_moved
    else if b == 159
    then ok connection_rate_exceeded
    else err (other (invalid_reason b))

-- The value of each reason in the protocol.
unfoldable pub connack_reason_to_u8 : ConnackReason → ℕ
connack_reason_to_u8 success = 0
connack_reason_to_u8 unspecified_error = 128
connack_reason_to_u8 malformed_packet = 129
connack_reason_to_u8 protocol_error = 130
connack_reason_to_u8 implementation_specific_error = 131
connack_reason_to_u8 unsupported_protocol_version = 132
connack_reason_to_u8 client_identifier_not_valid = 133
connack_reason_to_u8 bad_user_name_or_password = 134
connack_reason_to_u8 not_authorized = 135
connack_reason_to_u8 server_unavailable = 136
connack_reason_to_u8 server_busy = 137
connack_reason_to_u8 banned = 138
connack_reason_to_u8 bad_authentication_method = 140
connack_reason_to_u8 topic_name_invalid = 144
connack_reason_to_u8 packet_too_large = 149
connack_reason_to_u8 quota_exceeded = 151
connack_reason_to_u8 payload_format_invalid = 153
connack_reason_to_u8 retain_not_supported = 154
connack_reason_to_u8 qos_not_supported = 155
connack_reason_to_u8 use_another_server = 156
connack_reason_to_u8 server_moved = 157
connack_reason_to_u8 connection_rate_exceeded = 159

-- Every reason is read back from its byte.
pub connack_reason_try_from-to_u8 :
    (r : ConnackReason) → connack_reason_try_from (connack_reason_to_u8 r) ≡ ok r
unfolding connack_reason_try_from connack_reason_to_u8
connack_reason_try_from-to_u8 success = refl
connack_reason_try_from-to_u8 _ = refl

-- A byte is read as a reason only if it is the byte of that reason.
pub connack_reason_to_u8-try_from :
    (b : ℕ) (r : ConnackReason) → connack_reason_try_from b ≡ ok r → connack_reason_to_u8 r ≡ b
unfolding connack_reason_try_from connack_reason_to_u8
connack_reason_to_u8-try_from b r e = ground arith
