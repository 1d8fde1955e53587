-- ===== src/Protocol/Reason/Disconnect.antt =====
-- src/protocol/disconnect.rs: the reason codes of DISCONNECT.
use ruq.Base.{ℕ, ◌≡◌, refl, ◌==◌, if◌then◌else◌, Outcome, ok, err, arith}
use ruq.Protocol.{ConvertError, other, invalid_reason}

pub data DisconnectReason : Type 0 where
  normal disconnect_with_will unspecified_error malformed_packet protocol_error : DisconnectReason
  implementation_specific_error not_authorized server_busy server_shutting_down : DisconnectReason
  keep_alive_timeout session_taken_over topic_filter_invalid topic_name_invalid : DisconnectReason
  receive_maximum_exceeded topic_alias_invalid packet_too_large message_rate_too_high :
      DisconnectReason
  quota_exceeded administrative_action payload_format_invalid retain_not_supported :
      DisconnectReason
  qos_not_supported use_another_server server_moved shared_subs_not_supported : DisconnectReason
  connection_rate_exceeded maximum_connect_time subscrpition_ids_not_supported : DisconnectReason
  wildcard_subs_not_supported : DisconnectReason

-- `DisconnectReason::try_from(u8)`.
unfoldable pub disconnect_reason_try_from : ℕ → Outcome ConvertError DisconnectReason
disconnect_reason_try_from b =
    if b == 0
    then ok normal
    else if b == 4
    then ok disconnect_with_will
    else if b == 128
    then ok unspecified_error
    else if b == 129
    then ok malformed_packet
    else if b == 130
    then ok protocol_error
    else if b == 131
    then ok implementation_specific_error
    else if b == 135
    then ok not_authorized
    else if b == 137
    then ok server_busy
    else if b == 139
    then ok server_shutting_down
    else if b == 141
    then ok keep_alive_timeout
    else if b == 142
    then ok session_taken_over
    else if b == 143
    then ok topic_filter_invalid
    else if b == 144
    then ok topic_name_invalid
    else if b == 147
    then ok receive_maximum_exceeded
    else if b == 148
    then ok topic_alias_invalid
    else if b == 149
    then ok packet_too_large
    else if b == 150
    then ok message_rate_too_high
    else if b == 151
    then ok quota_exceeded
    else if b == 152
    then ok administrative_action
    else if b == 153
    then ok payload_format_invalid
    else if b == 154
    then ok retain_not_supported
    else if b == 155
    then ok qos_not_supported
    else if b == 156
    then ok use_another_server
    else if b == 157
    then ok server_moved
    else if b == 158
    then ok shared_subs_not_supported
    else if b == 159
    then ok connection_rate_exceeded
    else if b == 160
    then ok maximum_connect_time
    else if b == 161
    then ok subscrpition_ids_not_supported
    else if b == 162
    then ok wildcard_subs_not_supported
    else err (other (invalid_reason b))

-- `u8::from(DisconnectReason)`.
unfoldable pub disconnect_reason_to_u8 : DisconnectReason → ℕ
disconnect_reason_to_u8 normal = 0
disconnect_reason_to_u8 disconnect_with_will = 4
disconnect_reason_to_u8 unspecified_error = 128
disconnect_reason_to_u8 malformed_packet = 129
disconnect_reason_to_u8 protocol_error = 130
disconnect_reason_to_u8 implementation_specific_error = 131
disconnect_reason_to_u8 not_authorized = 135
disconnect_reason_to_u8 server_busy = 137
disconnect_reason_to_u8 server_shutting_down = 139
disconnect_reason_to_u8 keep_alive_timeout = 141
disconnect_reason_to_u8 session_taken_over = 142
disconnect_reason_to_u8 topic_filter_invalid = 143
disconnect_reason_to_u8 topic_name_invalid = 144
disconnect_reason_to_u8 receive_maximum_exceeded = 147
disconnect_reason_to_u8 topic_alias_invalid = 148
disconnect_reason_to_u8 packet_too_large = 149
disconnect_reason_to_u8 message_rate_too_high = 150
disconnect_reason_to_u8 quota_exceeded = 151
disconnect_reason_to_u8 administrative_action = 152
disconnect_reason_to_u8 payload_format_invalid = 153
disconnect_reason_to_u8 retain_not_supported = 154
disconnect_reason_to_u8 qos_not_supported = 155
disconnect_reason_to_u8 use_another_server = 156
disconnect_reason_to_u8 server_moved = 157
disconnect_reason_to_u8 shared_subs_not_supported = 158
disconnect_reason_to_u8 connection_rate_exceeded = 159
disconnect_reason_to_u8 maximum_connect_time = 160
disconnect_reason_to_u8 subscrpition_ids_not_supported = 161
disconnect_reason_to_u8 wildcard_subs_not_supported = 162

-- Every reason is read back from its byte.
pub disconnect_reason_try_from-to_u8 :
    (r : DisconnectReason) → disconnect_reason_try_from (disconnect_reason_to_u8 r) ≡ ok r
unfolding disconnect_reason_try_from disconnect_reason_to_u8
disconnect_reason_try_from-to_u8 normal = refl
disconnect_reason_try_from-to_u8 _ = refl

-- A byte is read as a reason only if it is the byte of that reason.
pub disconnect_reason_to_u8-try_from :
    (b : ℕ) (r : DisconnectReason)
    → disconnect_reason_try_from b ≡ ok r
    → disconnect_reason_to_u8 r ≡ b
unfolding disconnect_reason_try_from disconnect_reason_to_u8
disconnect_reason_to_u8-try_from b r e = ground arith
