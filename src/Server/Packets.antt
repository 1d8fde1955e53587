-- ===== src/Server/Packets.antt =====
-- Forms of the packets that a server sends, listed in `Laid`, and what src/mqtt_codec.rs and
-- `parse_pkt` of src/protocol/mod.rs make of them.
use ruq.Base.{
  ℕ, List, ◌+◌, ◌^◌, ◌<◌, ◌≡◌, refl, ap, ◌∙◌, none, some, [], ◌∷◌, ◌++◌, arith, length, append-nil,
  ok,
}
use ruq.Protocol.{Bytes, Decoded}
use ruq.Protocol.Text.{u16_to_be}
use ruq.Protocol.PktId.{IsPktId}
use ruq.Protocol.Qos.{flags_to_u8}
use ruq.Protocol.Frame.{frame, frame_first}
use ruq.Protocol.Reason.Puback.{PubackReason, success, puback_reason_to_u8}
use ruq.Protocol.Reason.Disconnect.{DisconnectReason, normal, disconnect_reason_to_u8}
use ruq.Protocol.Ack.Laws.{AreAckTexts}
use ruq.Protocol.Ack.Connack.{Connack}
use ruq.Protocol.Ack.Suback.{Suback}
use ruq.Protocol.Ack.Unsuback.{Unsuback}
use ruq.Protocol.Ack.Puback.{no_properties}
use ruq.Protocol.Disconnect.{DisconnectProperty, disconnect_properties_to_mqtt}
use ruq.Protocol.Disconnect.Laws.{AreServerTexts}
use ruq.Protocol.Vbi.{vbi_to_mqtt}
use ruq.Protocol.Publish.{Publish, publish_from_mqtt}
use ruq.Protocol.Publish.RoundTrip.{IsPublish, publish_buf, publish_from_frame}
use ruq.Protocol.Requests.{pingresp_from_mqtt}
use ruq.Protocol.Packet.{
  Packet, PacketType, connack_type, publish_type, pub_ack_type, subscribe_ack_type,
  unsubscribe_ack_type, ping_response_type, disconnect_type, parse_fixed_header, parse_as,
  parse_pkt-parse_as, as_packet,
}
use ruq.Codec.{decode}
use ruq.Codec.RoundTrip.{publish_header}
use ruq.Codec.Framing.{decode-frame, decode-part}
use ruq.Server.Acks.{
  connack_buf, suback_buf, unsuback_buf, Finds, connack_from-frame, suback_from-frame,
  unsuback_from-frame,
}
use ruq.Protocol.Ack.Puback.Pairs.{pair, behind_length}
use ruq.Protocol.Properties.Laws.{IsText}
use ruq.Server.Short.{
  puback_from-pair, puback_from-id, puback_from-reason, puback_from-full, disconnect_from-none,
  disconnect_from-reason, disconnect_from-full,
}

-- By the standard the packet has this first byte and this buffer behind the remaining length.
-- PUBACK stands without properties or with one user property; a SUBACK or UNSUBACK answers one
-- topic filter, as the types of the code hold it; the properties of CONNACK, SUBACK and UNSUBACK,
-- and of DISCONNECT, are those that the code knows.
pub data Laid : Packet → ℕ → Bytes → Type 0 where
  connack_laid :
      (p : Connack) → AreAckTexts p.properties → Laid (Packet.connack p) 0x20 (connack_buf p)
  sub_ack_laid :
      (p : Suback)
      → AreAckTexts p.properties
      → IsPktId p.pktid
      → Laid (Packet.sub_ack p) 0x90 (suback_buf p)
  unsub_ack_laid :
      (p : Unsuback)
      → AreAckTexts p.properties
      → IsPktId p.pktid
      → Laid (Packet.unsub_ack p) 0xb0 (unsuback_buf p)
  pub_ack_id :
      (id : ℕ)
      → IsPktId id
      → Laid
          (Packet.pub_ack (record { properties = no_properties; pktid = id; reason = success }))
          0x40
          (u16_to_be id)
  pub_ack_reason :
      (id : ℕ) (reason : PubackReason)
      → IsPktId id
      → Laid
          (Packet.pub_ack (record { properties = no_properties; pktid = id; reason = reason }))
          0x40
          (u16_to_be id ++ (puback_reason_to_u8 reason ∷ []))
  pub_ack_full :
      (id : ℕ) (reason : PubackReason)
      → IsPktId id
      → Laid
          (Packet.pub_ack (record { properties = no_properties; pktid = id; reason = reason }))
          0x40
          (u16_to_be id ++ (puback_reason_to_u8 reason ∷ 0 ∷ []))
  pub_ack_pair :
      (id : ℕ) (reason : PubackReason) (k v : Bytes)
      → IsPktId id
      → IsText k
      → IsText v
      → Laid
          (Packet.pub_ack (record {
            properties = record { reason_string = none; user_properties = (k, v) ∷ [] };
            pktid = id;
            reason = reason;
          }))
          0x40
          (u16_to_be id ++ (puback_reason_to_u8 reason ∷ behind_length (pair k v)))
  ping_resp_laid : Laid Packet.ping_resp 0xd0 []
  disconnect_none : Laid (Packet.disconnect (record { reason = normal; properties = [] })) 0xe0 []
  disconnect_reason :
      (reason : DisconnectReason)
      → Laid
          (Packet.disconnect (record { reason = reason; properties = [] }))
          0xe0
          (disconnect_reason_to_u8 reason ∷ [])
  disconnect_full :
      (reason : DisconnectReason) (p : DisconnectProperty) (ps : List DisconnectProperty)
      → AreServerTexts (p ∷ ps)
      → Laid
          (Packet.disconnect (record { reason = reason; properties = p ∷ ps }))
          0xe0
          (disconnect_reason_to_u8 reason ∷ disconnect_properties_to_mqtt (p ∷ ps))
  disconnect_empty :
      (reason : DisconnectReason)
      → Laid
          (Packet.disconnect (record { reason = reason; properties = [] }))
          0xe0
          (disconnect_reason_to_u8 reason ∷ 0 ∷ [])
  publish_laid :
      (p : Publish)
      → IsPublish p
      → Laid (Packet.publish p) (0x30 + flags_to_u8 p.flags) (publish_buf p)

-- The type in the first byte.
laid_type : Packet → PacketType
laid_type (Packet.connack p) = connack_type
laid_type (Packet.sub_ack p) = subscribe_ack_type
laid_type (Packet.unsub_ack p) = unsubscribe_ack_type
laid_type (Packet.pub_ack p) = pub_ack_type
laid_type Packet.ping_resp = ping_response_type
laid_type (Packet.disconnect p) = disconnect_type
laid_type _ = publish_type

Laid-header :
    (p : Packet) (first : ℕ) (buf : Bytes)
    → Laid p first buf
    → parse_fixed_header first ≡ some (laid_type p)
unfolding laid_type parse_fixed_header
Laid-header p first buf (publish_laid q h) = publish_header q.flags
Laid-header p first buf (connack_laid q h) = refl
Laid-header p first buf (sub_ack_laid q h k) = refl
Laid-header p first buf (unsub_ack_laid q h k) = refl
Laid-header p first buf (pub_ack_id id h) = refl
Laid-header p first buf (pub_ack_reason id r h) = refl
Laid-header p first buf (pub_ack_full id r h) = refl
Laid-header p first buf (pub_ack_pair id r k v h hk hv) = refl
Laid-header p first buf ping_resp_laid = refl
Laid-header p first buf disconnect_none = refl
Laid-header p first buf (disconnect_reason r) = refl
Laid-header p first buf (disconnect_empty r) = refl
Laid-header p first buf (disconnect_full r q qs h) = refl

ping_found : Finds (pingresp_from_mqtt (frame 0xd0 [])) tt
unfolding pingresp_from_mqtt frame vbi_to_mqtt
ping_found = (2, refl)

publish_found :
    (p : Publish)
    → IsPublish p
    → Finds (publish_from_mqtt (frame (0x30 + flags_to_u8 p.flags) (publish_buf p))) p
publish_found p h = (_, rw append-nil at (publish_from_frame p h []))

as_packet_found :
    {A : Type 0} (wrap : A → Packet) (r : Decoded A) (v : A)
    → Finds r v
    → as_packet wrap r ≡ ok (some (wrap v))
as_packet_found wrap r v (n, e) = rw e refl

Laid-parsed :
    (p : Packet) (first : ℕ) (buf : Bytes)
    → Laid p first buf
    → length buf < 2 ^ 28
    → parse_as (laid_type p) (frame first buf) ≡ ok (some p)
unfolding laid_type parse_as
Laid-parsed p first buf (connack_laid q h) fits =
    as_packet_found Packet.connack _ q (connack_from-frame q h fits)
Laid-parsed p first buf (sub_ack_laid q h k) fits =
    as_packet_found Packet.sub_ack _ q (suback_from-frame q.pktid q.properties h k q.reason fits)
Laid-parsed p first buf (unsub_ack_laid q h k) fits =
    as_packet_found Packet.unsub_ack _ q
      (unsuback_from-frame q.pktid q.properties h k q.reason fits)
Laid-parsed p first buf (pub_ack_id id h) fits =
    as_packet_found Packet.pub_ack _ _ (puback_from-id id h)
Laid-parsed p first buf (pub_ack_reason id r h) fits =
    as_packet_found Packet.pub_ack _ _ (puback_from-reason id r h)
Laid-parsed p first buf (pub_ack_full id r h) fits =
    as_packet_found Packet.pub_ack _ _ (puback_from-full id r h)
Laid-parsed p first buf (pub_ack_pair id r k v h hk hv) fits =
    as_packet_found Packet.pub_ack _ _ (puback_from-pair id r k v h hk hv fits)
Laid-parsed p first buf ping_resp_laid fits =
    as_packet_found (λ _. Packet.ping_resp) _ tt ping_found
Laid-parsed p first buf disconnect_none fits =
    as_packet_found Packet.disconnect _ _ disconnect_from-none
Laid-parsed p first buf (disconnect_reason r) fits =
    as_packet_found Packet.disconnect _ _ (disconnect_from-reason r [] (omega arith))
Laid-parsed p first buf (disconnect_empty r) fits =
    as_packet_found Packet.disconnect _ _ (disconnect_from-reason r (0 ∷ []) (omega arith))
Laid-parsed p first buf (disconnect_full r q qs h) fits =
    as_packet_found Packet.disconnect _ _ (disconnect_from-full r q qs h fits)
Laid-parsed p first buf (publish_laid q h) fits =
    as_packet_found Packet.publish _ q (publish_found q h)

-- A packet in any form that `Laid` lists, its remaining length below 2 ^ 28, is found by `decode` in
-- front of the buffer, just as it was sent, and what follows it is left.
pub decode-Laid :
    (p : Packet) (first : ℕ) (buf rest : Bytes)
    → Laid p first buf
    → length buf < 2 ^ 28
    → decode (frame first buf ++ rest) ≡ (ok (some p), rest)
decode-Laid p first buf rest laid fits =
    decode-frame first buf (laid_type p) (Laid-header p first buf laid) fits rest
    ∙ ap (λ a. (a, rest))
        (parse_pkt-parse_as (frame first buf) first (laid_type p) (frame_first first buf)
            (Laid-header p first buf laid)
          ∙ rw (Laid-parsed p first buf laid fits) refl)

-- On a proper part of such a packet `decode` asks for more and keeps the buffer.
pub decode-Laid_part :
    (p : Packet) (first : ℕ) (buf front back : Bytes) (x : ℕ)
    → Laid p first buf
    → length buf < 2 ^ 28
    → frame first buf ≡ front ++ (x ∷ back)
    → decode front ≡ (ok none, front)
decode-Laid_part p first buf front back x laid fits cut =
    decode-part first buf (laid_type p) (Laid-header p first buf laid) fits front back x cut
