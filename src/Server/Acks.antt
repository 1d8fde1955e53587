-- ===== src/Server/Acks.antt =====
-- The decoders of src/protocol/connack.rs, suback.rs, unsuback.rs and puback.rs on the packets that
-- a server sends.
use ruq.Base.{
  ℕ, List, slice_from, index, ◌+◌, ◌^◌, ◌<◌, ◌≡◌, refl, [], ◌∷◌, ◌++◌, arith, length, append-nil,
  ok, ◌>>=◌, At, At-next, slice_from-At, bind_step, else_step, if◌then◌else◌,
}
use ruq.Protocol.{Bytes, Decoded}
use ruq.Protocol.Text.{u16_to_be}
use ruq.Protocol.PktId.{IsPktId, pktid_to_mqtt, pktid_from_mqtt, pktid_from-pktid_to}
use ruq.Protocol.Vbi.{vbi_to_mqtt}
use ruq.Protocol.Frame.{frame}
use ruq.Protocol.Frame.Read.{index-At, At-buf, header_step, not_short}
use ruq.Protocol.Reason.Connack.{connack_reason_to_u8, connack_reason_try_from-to_u8}
use ruq.Protocol.Reason.Suback.{SubackReason, suback_reason_to_u8, suback_reason_try_from-to_u8}
use ruq.Protocol.Reason.Unsuback.{
  UnsubackReason, unsuback_reason_to_u8, unsuback_reason_try_from-to_u8,
}
use ruq.Protocol.Ack.{AckProperty, ack_properties_to_mqtt, ack_properties_from_mqtt}
use ruq.Protocol.Ack.Laws.{AreAckTexts, ack_properties_from-to}
use ruq.Protocol.Ack.Connack.{ConnackFlags, Connack, connack_flags_try_from, connack_from_mqtt}
use ruq.Protocol.Ack.Suback.{suback_properties_to_mqtt, Suback, suback_from_mqtt}
use ruq.Protocol.Ack.Unsuback.{unsuback_properties_to_mqtt, Unsuback, unsuback_from_mqtt}

-- The first byte of the variable header of CONNACK.
abbrev pub session_byte : ConnackFlags → ℕ
session_byte f = if f.session_present then 1 else 0

abbrev pub connack_buf : Connack → Bytes
connack_buf p =
    session_byte p.flags ∷ connack_reason_to_u8 p.reason ∷ ack_properties_to_mqtt p.properties

abbrev pub suback_buf : Suback → Bytes
suback_buf p =
    u16_to_be p.pktid
    ++ (suback_properties_to_mqtt p.properties ++ (suback_reason_to_u8 p.reason ∷ []))

abbrev pub unsuback_buf : Unsuback → Bytes
unsuback_buf p =
    u16_to_be p.pktid
    ++ (unsuback_properties_to_mqtt p.properties ++ (unsuback_reason_to_u8 p.reason ∷ []))

-- The decoder finds `v`; how many bytes it says that it took is left open.
abbrev pub Finds : {A : Type 0} → Decoded A → A → Type 0
Finds r v = (n : ℕ) × (r ≡ ok (v, n))

pub pktid_found :
    (id : ℕ) (rest : Bytes) → IsPktId id → pktid_from_mqtt (u16_to_be id ++ rest) ≡ ok (id, 2)
unfolding pktid_to_mqtt
pktid_found id rest h = pktid_from-pktid_to id h rest

flags_found : (f : ConnackFlags) → connack_flags_try_from (session_byte f) ≡ ok f
unfolding connack_flags_try_from
flags_found f = ground arith

pub connack_from-frame :
    (p : Connack)
    → AreAckTexts p.properties
    → length (connack_buf p) < 2 ^ 28
    → Finds (connack_from_mqtt (frame 0x20 (connack_buf p))) p
unfolding connack_from_mqtt
connack_from-frame p h fits =
    let buf = connack_buf p in
    let k = 1 + length (vbi_to_mqtt (length buf)) in
    let reason = connack_reason_to_u8 p.reason in
    let props = ack_properties_to_mqtt p.properties in
    let at_flags = At-buf 0x20 buf fits in
    let at_reason =
      At-next (session_byte p.flags ∷ []) (reason ∷ props) (k + 1) at_flags (omega arith) in
    let at_props = At-next (reason ∷ []) props (k + 1 + 1) at_reason (omega arith) in
    (
      k + 1 + 1 + length props,
      header_step 0x20 buf fits _ (
          else_step _ _ _ (not_short 0x20 buf fits) (
            bind_step _ _ (index-At _ _ at_flags) (
              bind_step _ _ (flags_found p.flags) (
                bind_step _ _ (index-At _ _ at_reason) (
                  bind_step _ _ (connack_reason_try_from-to_u8 p.reason) (
                    bind_step _ _ (slice_from-At at_props) (
                      bind_step _ _ (rw append-nil at (ack_properties_from-to p.properties h []))
                        refl))))))),
    )

-- SUBACK and UNSUBACK: the offsets behind the identifier and behind the properties.
module _ (first id r : ℕ) (ps : List AckProperty) (text : AreAckTexts ps) (word : IsPktId id)
    (fits : length (u16_to_be id ++ (ack_properties_to_mqtt ps ++ (r ∷ []))) < 2 ^ 28) where
  abbrev acked : Bytes
  acked = u16_to_be id ++ (ack_properties_to_mqtt ps ++ (r ∷ []))

  abbrev start : ℕ
  start = 1 + length (vbi_to_mqtt (length acked))

  At-acked : At (frame first acked) (start + 2) (ack_properties_to_mqtt ps ++ (r ∷ []))
  At-acked = At-next (u16_to_be id) _ (start + 2) (At-buf first acked fits) refl

  -- The decoder's way to the reason byte.
  acked_step :
      {A : Type 0} (g : ℕ × ℕ → List AckProperty × ℕ → ℕ → Decoded A) {v : Decoded A}
      → g (id, 2) (ps, length (ack_properties_to_mqtt ps)) r ≡ v
      → (slice_from (frame first acked) start >>= λ s. pktid_from_mqtt s >>= λ a.
          slice_from (frame first acked) (start + a.1) >>= λ s'.
          ack_properties_from_mqtt s' >>= λ b.
          index (frame first acked) (start + a.1 + b.1) >>= λ c. g a b c)
        ≡ v
  acked_step g e = bind_step _ _ (slice_from-At (At-buf first acked fits)) (
      bind_step _ _ (pktid_found id _ word) (
        bind_step _ _ (slice_from-At At-acked) (
          bind_step _ _ (ack_properties_from-to ps text (r ∷ [])) (
            bind_step _ _
              (index-At r [] (
                At-next (ack_properties_to_mqtt ps) (r ∷ [])
                  (start + 2 + length (ack_properties_to_mqtt ps)) At-acked refl))
              e))))

module _ (id : ℕ) (ps : List AckProperty) (text : AreAckTexts ps) (word : IsPktId id) where
  pub unsuback_from-frame :
      (reason : UnsubackReason)
      → let p : Unsuback = record { properties = ps; pktid = id; reason = reason } in
        length (unsuback_buf p) < 2 ^ 28
        → Finds (unsuback_from_mqtt (frame 0xb0 (unsuback_buf p))) p
  unfolding unsuback_from_mqtt
  unsuback_from-frame reason fits =
      let r = unsuback_reason_to_u8 reason in
      let buf = acked 0xb0 id r ps text word fits in
      (
        _,
        header_step 0xb0 buf fits _ (
            else_step _ _ _ (not_short 0xb0 buf fits) (
              acked_step 0xb0 id r ps text word fits _
                (bind_step _ _ (unsuback_reason_try_from-to_u8 reason) refl))),
      )

  pub suback_from-frame :
      (reason : SubackReason)
      → let p : Suback = record { properties = ps; pktid = id; reason = reason } in
        length (suback_buf p) < 2 ^ 28 → Finds (suback_from_mqtt (frame 0x90 (suback_buf p))) p
  unfolding suback_from_mqtt
  suback_from-frame reason fits =
      let r = suback_reason_to_u8 reason in
      let buf = acked 0x90 id r ps text word fits in
      (
        _,
        header_step 0x90 buf fits _ (
            else_step _ _ _ (not_short 0x90 buf fits) (
              acked_step 0x90 id r ps text word fits _
                (bind_step _ _ (suback_reason_try_from-to_u8 reason) refl))),
      )
