-- ===== src/Codec/Unread.antt =====
-- The packet types for which `parse_pkt` of src/protocol/mod.rs is `unimplemented!`.
use ruq.Base.{ℕ, ◌^◌, ◌<◌, ◌≡◌, refl, ap, ◌∙◌, some, ◌++◌, length, panic}
use ruq.Protocol.{Bytes}
use ruq.Protocol.Frame.{frame, frame_first}
use ruq.Protocol.Packet.{
  PacketType, connect_type, pub_received_type, pub_release_type, pub_complete_type, subscribe_type,
  unsubscribe_type, ping_request_type, auth_type, parse_fixed_header, parse_as, parse_pkt-parse_as,
}
use ruq.Codec.{decode}
use ruq.Codec.Framing.{decode-frame}

-- The answers of a server to QoS 2 and AUTH, and what only a client sends.
pub data IsUnread : PacketType → Type 0 where
  pub_received_unread : IsUnread pub_received_type
  pub_release_unread : IsUnread pub_release_type
  pub_complete_unread : IsUnread pub_complete_type
  auth_unread : IsUnread auth_type
  connect_unread : IsUnread connect_type
  subscribe_unread : IsUnread subscribe_type
  unsubscribe_unread : IsUnread unsubscribe_type
  ping_request_unread : IsUnread ping_request_type

unread_panics : (ty : PacketType) (buf : Bytes) → IsUnread ty → parse_as ty buf ≡ panic
unfolding parse_as
unread_panics ty buf pub_received_unread = refl
unread_panics ty buf pub_release_unread = refl
unread_panics ty buf pub_complete_unread = refl
unread_panics ty buf auth_unread = refl
unread_panics ty buf connect_unread = refl
unread_panics ty buf subscribe_unread = refl
unread_panics ty buf unsubscribe_unread = refl
unread_panics ty buf ping_request_unread = refl

-- On a whole packet of PUBREC, PUBREL, PUBCOMP, AUTH, or of a type that only a client sends, its
-- remaining length below 2 ^ 28, `decode` panics, whatever is in the packet and behind it.
pub decode-IsUnread :
    (first : ℕ) (buf rest : Bytes) (ty : PacketType)
    → parse_fixed_header first ≡ some ty
    → IsUnread ty
    → length buf < 2 ^ 28
    → decode (frame first buf ++ rest) ≡ (panic, rest)
decode-IsUnread first buf rest ty header unread fits =
    decode-frame first buf ty header fits rest
    ∙ ap (λ a. (a, rest))
        (parse_pkt-parse_as (frame first buf) first ty (frame_first first buf) header
          ∙ rw (unread_panics ty (frame first buf) unread) refl)
