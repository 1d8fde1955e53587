-- ===== src/Codec/RoundTrip.antt =====
-- PUBLISH packets through the codec.
use ruq.Base.{
  ℕ, ◌+◌, ◌/◌, ◌≡◌, refl, ap, ◌∙◌, none, some, [], ◌∷◌, ◌++◌, arith, length, append-nil, ok,
}
use ruq.Protocol.{Bytes}
use ruq.Protocol.Qos.{flags_to_u8, flags_to_u8-lt, PublishFlags}
use ruq.Protocol.Frame.{frame, frame_first}
use ruq.Protocol.Publish.{Publish, publish_from_mqtt}
use ruq.Protocol.Publish.RoundTrip.{IsPublish, publish_buf, publish_to_frame, publish_from_frame}
use ruq.Protocol.Packet.{
  publish, publish_type, packet_to_mqtt, parse_fixed_header, parse_pkt, parse_as,
  parse_pkt-parse_as,
}
use ruq.Codec.{decode, encode}
use ruq.Codec.Framing.{decode-frame, decode-part}

pub publish_header :
    (f : PublishFlags) → parse_fixed_header (0x30 + flags_to_u8 f) ≡ some publish_type
unfolding parse_fixed_header
publish_header f =
    let three : (0x30 + flags_to_u8 f) / 16 ≡ 3 = omega (arith, flags_to_u8-lt f) in rw three refl

encode-publish :
    (p : Publish) (dst : Bytes)
    → IsPublish p
    → encode (publish p) dst ≡ ok (dst ++ frame (0x30 + flags_to_u8 p.flags) (publish_buf p))
unfolding encode packet_to_mqtt
encode-publish p dst h = rw (publish_to_frame p h) refl

parse_pkt-frame :
    (p : Publish)
    → IsPublish p
    → parse_pkt (frame (0x30 + flags_to_u8 p.flags) (publish_buf p)) ≡ ok (some (publish p))
unfolding parse_as
parse_pkt-frame p h =
    let whole = frame (0x30 + flags_to_u8 p.flags) (publish_buf p) in
    let read : publish_from_mqtt whole ≡ ok (p, length whole) =
      rw append-nil at (publish_from_frame p h []) in
    parse_pkt-parse_as whole (0x30 + flags_to_u8 p.flags) publish_type
      (frame_first (0x30 + flags_to_u8 p.flags) (publish_buf p)) (publish_header p.flags)
    ∙ rw read refl

-- A PUBLISH packet with the properties of `IsPublish` is appended to the write buffer without a panic,
-- and `decode` on the appended bytes and whatever follows answers the same packet and leaves what
-- follows.
pub decode-encode :
    (p : Publish) (dst : Bytes)
    → IsPublish p
    → (enc : Bytes) × (encode (publish p) dst ≡ ok (dst ++ enc))
      × ((rest : Bytes) → decode (enc ++ rest) ≡ (ok (some (publish p)), rest))
decode-encode p dst h =
    let first = 0x30 + flags_to_u8 p.flags in
    (
      frame first (publish_buf p),
      encode-publish p dst h,
      λ rest.
          decode-frame first (publish_buf p) publish_type (publish_header p.flags) h.fits rest
          ∙ ap (λ a. (a, rest)) (parse_pkt-frame p h),
    )

-- When only a proper part of an encoded PUBLISH packet with the properties of `IsPublish` has arrived,
-- wherever it was cut, `decode` asks for more and keeps the buffer.
pub decode-encode_part :
    (p : Publish) (front back : Bytes) (x : ℕ)
    → IsPublish p
    → encode (publish p) [] ≡ ok (front ++ (x ∷ back))
    → decode front ≡ (ok none, front)
decode-encode_part p front back x h cut =
    let first = 0x30 + flags_to_u8 p.flags in
    let same : frame first (publish_buf p) ≡ front ++ (x ∷ back) =
      cc (encode-publish p [] h, cut) in
    decode-part first (publish_buf p) publish_type (publish_header p.flags) h.fits front back x same
