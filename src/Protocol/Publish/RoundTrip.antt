-- ===== src/Protocol/Publish/RoundTrip.antt =====
-- A PUBLISH packet is read back from the bytes that it was written to.
use ruq.Base.{
  ℕ, ◌+◌, ◌^◌, ◌≤◌, ◌<◌, ◌≡◌, refl, ◌∙◌, true, false, Option, none, some, List, [], ◌∷◌, ◌++◌,
  arith, All, length, ltb, length-append, append_assoc, ok, checked_sub, At, At-start, At-next,
  slice_from-At, slice-At, bind_step, ok_count, else_step, checked_sub_eq, le→not_ltb,
}
use ruq.Protocol.{Bytes, ConvertError, Reads}
use ruq.Protocol.Vbi.{vbi_to_mqtt}
use ruq.Protocol.Vbi.RoundTrip.{vbi_from-vbi_to}
use ruq.Protocol.Text.{is_utf8, u16_to_be, text_to_mqtt}
use ruq.Protocol.Text.Laws.{string_from-text_to}
use ruq.Protocol.PktId.{IsPktId, pktid_to_mqtt, pktid_from_mqtt, pktid_from-pktid_to}
use ruq.Protocol.Qos.{
  QoS, at_most_once, at_least_once, exactly_once, above_at_most_once, flags_to_u8,
  flags_try_from-to_u8,
}
use ruq.Protocol.Properties.{encode_all, properties_to_mqtt}
use ruq.Protocol.Properties.Laws.{IsText, IsReadBack, properties_from-properties_to}
use ruq.Protocol.Property.{Property, property_to_mqtt, property_from_mqtt}
use ruq.Protocol.Property.Laws.{IsSendable, property_from-property_to, length-property_to}
use ruq.Protocol.Frame.{frame, frame_parts, length-frame}
use ruq.Protocol.Publish.{
  Payload, string, bytes, payload_to_mqtt, Publish, pktid_part, publish_to_mqtt, says_utf8,
  read_pktid, read_payload, publish_from_mqtt,
}

-- The payload is marked as text exactly by the property that the decoder looks at.
abbrev pub PayloadFits : List Property → Payload → Type 0
PayloadFits ps (string s) = (says_utf8 ps ≡ true) × (is_utf8 s ≡ true)
PayloadFits ps (bytes b) = says_utf8 ps ≡ false

-- The identifier is there exactly where the QoS asks for one.
abbrev pub PktIdFits : QoS → Option ℕ → Type 0
PktIdFits at_most_once none = Unit
PktIdFits at_most_once (some id) = ⊥
PktIdFits at_least_once none = ⊥
PktIdFits at_least_once (some id) = IsPktId id
PktIdFits exactly_once none = ⊥
PktIdFits exactly_once (some id) = IsPktId id

-- The bytes of the identifier, of the whole buffer behind the fixed header.
abbrev pktid_bytes : Option ℕ → Bytes
pktid_bytes none = []
pktid_bytes (some id) = u16_to_be id

abbrev pub publish_buf : Publish → Bytes
publish_buf p =
    text_to_mqtt p.topic
    ++ (pktid_bytes p.pktid
        ++ (properties_to_mqtt property_to_mqtt p.properties ++ payload_to_mqtt p.payload))

-- The packets that are read back: their texts are valid; topic, texts in properties and correlation
-- data are shorter than 2 ^ 16 bytes; there is no message expiry interval; the payload is marked as text
-- just when it is text; an identifier is there just where the QoS asks for one; and the lengths stay
-- below 2 ^ 28.
pub record IsPublish (p : Publish) : Type 0 where
  pub topic : IsText p.topic
  pub payload : PayloadFits p.properties p.payload
  pub properties : All IsSendable p.properties
  pub short : length (encode_all property_to_mqtt p.properties) < 2 ^ 28
  pub pktid : PktIdFits p.flags.qos p.pktid
  pub fits : length (publish_buf p) < 2 ^ 28

pktid_part_fits :
    (q : QoS) (o : Option ℕ)
    → PktIdFits q o
    → pktid_part (above_at_most_once q) o ≡ ok (pktid_bytes o)
pktid_part_fits at_most_once none h = refl
pktid_part_fits at_most_once (some id) h = absurd h
pktid_part_fits at_least_once none h = absurd h
pktid_part_fits at_least_once (some id) h = refl
pktid_part_fits exactly_once none h = absurd h
pktid_part_fits exactly_once (some id) h = refl

-- Such a packet is encoded without a panic, as the frame of its buffer.
pub publish_to_frame :
    (p : Publish)
    → IsPublish p
    → publish_to_mqtt p ≡ ok (frame (0x30 + flags_to_u8 p.flags) (publish_buf p))
unfolding publish_to_mqtt
publish_to_frame p h = rw (pktid_part_fits p.flags.qos p.pktid h.pktid) refl

pktid_found :
    (id : ℕ) (rest : Bytes) → IsPktId id → pktid_from_mqtt (u16_to_be id ++ rest) ≡ ok (id, 2)
unfolding pktid_to_mqtt
pktid_found id rest h = pktid_from-pktid_to id h rest

module _ {buf : Bytes} {k : ℕ} (rest : Bytes) where
  read_pktid_fits :
      (q : QoS) (o : Option ℕ)
      → PktIdFits q o
      → At buf k (pktid_bytes o ++ rest)
      → read_pktid (above_at_most_once q) buf k ≡ ok (o, length (pktid_bytes o))
  read_pktid_fits at_most_once none h at = refl
  read_pktid_fits at_most_once (some id) h at = absurd h
  read_pktid_fits at_least_once none h at = absurd h
  read_pktid_fits at_least_once (some id) h at =
      rw (slice_from-At {E = ConvertError} at) (rw (pktid_found id rest h) refl)
  read_pktid_fits exactly_once none h at = absurd h
  read_pktid_fits exactly_once (some id) h at =
      rw (slice_from-At {E = ConvertError} at) (rw (pktid_found id rest h) refl)

read_payload_fits :
    (ps : List Property) (payload : Payload)
    → PayloadFits ps payload
    → read_payload (says_utf8 ps) (payload_to_mqtt payload) ≡ ok payload
read_payload_fits ps (string s) (marked, valid) = rw (marked, valid) refl
read_payload_fits ps (bytes b) plain = rw plain refl

sendable-read :
    (ps : List Property)
    → All IsSendable ps
    → All (IsReadBack property_to_mqtt property_from_mqtt) ps
sendable-read [] h = tt
sendable-read (p ∷ ps) (h, hs) = (
  record { reads = property_from-property_to p h; not_empty = length-property_to p },
  sendable-read ps hs,
)

publish_buf_parts :
    (p : Publish) (rest : Bytes)
    → publish_buf p ++ rest
      ≡ text_to_mqtt p.topic
        ++ (pktid_bytes p.pktid
            ++ (properties_to_mqtt property_to_mqtt p.properties
                ++ (payload_to_mqtt p.payload ++ rest)))
publish_buf_parts p rest = simp append_assoc

-- The decoder on a frame in its parts.
publish_from_parts :
    (p : Publish) (rest : Bytes)
    → IsPublish p
    → publish_from_mqtt (
        (0x30 + flags_to_u8 p.flags)
        ∷ (vbi_to_mqtt (length (publish_buf p)) ++ (publish_buf p ++ rest)))
      ≡ ok (p, 1 + length (vbi_to_mqtt (length (publish_buf p))) + length (publish_buf p))
unfolding publish_from_mqtt
publish_from_parts p rest h =
    let first = 0x30 + flags_to_u8 p.flags in
    let topic = text_to_mqtt p.topic in
    let id = pktid_bytes p.pktid in
    let props = properties_to_mqtt property_to_mqtt p.properties in
    let payload = payload_to_mqtt p.payload in
    let len = vbi_to_mqtt (length (publish_buf p)) in
    let buf = first ∷ (len ++ (publish_buf p ++ rest)) in
    let total : length (publish_buf p)
        ≡ length topic + (length id + (length props + length payload)) =
      omega (
        arith,
        length-append topic (id ++ (props ++ payload)),
        length-append id (props ++ payload),
        length-append props payload,
      ) in
    let at_topic : At buf (1 + length len) (topic ++ (id ++ (props ++ (payload ++ rest)))) =
      rw (← publish_buf_parts p rest) (
        At-next len (publish_buf p ++ rest) (1 + length len)
          (At-next (first ∷ []) (len ++ (publish_buf p ++ rest)) 1 (At-start buf) (omega arith))
          (omega arith)) in
    let at_id =
      At-next topic (id ++ (props ++ (payload ++ rest))) (1 + length len + length topic) at_topic
        refl in
    let at_props =
      At-next id (props ++ (payload ++ rest)) (1 + length len + length topic + length id) at_id
        refl in
    let at_payload =
      At-next props (payload ++ rest) (1 + length len + length topic + length id + length props)
        at_props refl in
    let ends : 1 + length len + length topic + length id + length props + length payload
        ≡ 1 + length len + length (publish_buf p) =
      omega (arith, total) in
    let enough : length len + length (publish_buf p) + 1 ≤ length buf =
      omega
        (arith, length-append len (publish_buf p ++ rest), length-append (publish_buf p) rest) in
    (bind_step _ _ (flags_try_from-to_u8 3 p.flags (omega arith)) (
      bind_step _ _
        (slice_from-At
          (At-next (first ∷ []) (len ++ (publish_buf p ++ rest)) 1 (At-start buf) (omega arith)))
        (bind_step _ _ (vbi_from-vbi_to (length (publish_buf p)) (publish_buf p ++ rest) h.fits) (
          else_step (ltb (length buf) (length len + length (publish_buf p) + 1)) _ _
            (le→not_ltb _ _ enough)
            (bind_step _ _ (slice_from-At at_topic) (
              bind_step _ _ (string_from-text_to p.topic h.topic.short h.topic.valid _) (
                bind_step _ _ (read_pktid_fits _ p.flags.qos p.pktid h.pktid at_id) (
                  bind_step _ _ (slice_from-At at_props) (
                    bind_step _ _
                      (properties_from-properties_to property_to_mqtt property_from_mqtt
                        p.properties (sendable-read p.properties h.properties) h.short _)
                      (bind_step
                        (checked_sub (length (publish_buf p))
                          (length topic + length id + length props))
                        _ (checked_sub_eq _ _ (length payload) (omega (arith, total)))
                        (bind_step _ _ (slice-At payload rest _ at_payload refl) (
                          bind_step _ _ (read_payload_fits p.properties p.payload h.payload)
                            (ok_count p ends)))))))))))))

pub publish_from_frame :
    (p : Publish)
    → IsPublish p
    → Reads publish_from_mqtt (frame (0x30 + flags_to_u8 p.flags) (publish_buf p)) p
publish_from_frame p h rest =
    rw (frame_parts (0x30 + flags_to_u8 p.flags) (publish_buf p) rest h.fits) (
      publish_from_parts p rest h
      ∙ ok_count p (length-frame (0x30 + flags_to_u8 p.flags) (publish_buf p) h.fits))

-- A PUBLISH packet with the properties of `IsPublish` is encoded without a panic, and whatever follows
-- its bytes the decoder gives the same packet back and takes just these bytes.
pub publish_from-publish_to :
    (p : Publish)
    → IsPublish p
    → (enc : Bytes) × (publish_to_mqtt p ≡ ok enc) × Reads publish_from_mqtt enc p
publish_from-publish_to p h = (
  frame (0x30 + flags_to_u8 p.flags) (publish_buf p),
  publish_to_frame p h,
  publish_from_frame p h,
)
