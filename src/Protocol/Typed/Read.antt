-- ===== src/Protocol/Typed/Read.antt =====
-- The decoders of src/protocol and src/mqtt_codec.rs: from bytes come packets of the Rust types.
use ruq.Base.{
  ℕ, ◌+◌, Bool, true, false, Option, none, some, [], All, ltb, Bool-cases, inl, inr, length, ok,
  ◌>>=◌, index, slice_from, checked_sub, ok_or, if◌then◌else◌, get_elem?,
}
use ruq.Base.Gives.{
  Gives, Gives-map_err, Gives-ok, Gives-err, Gives-panic, Gives-if, Gives-any, Gives-then,
}
use ruq.Protocol.{Bytes, Decoded, not_enough_bytes}
use ruq.Protocol.Vbi.{vbi_from_mqtt}
use ruq.Protocol.Text.{is_utf8}
use ruq.Protocol.PktId.{IsPktId}
use ruq.Protocol.Qos.{above_at_most_once, flags_try_from}
use ruq.Protocol.Publish.{read_pktid, read_payload, says_utf8, publish_from_mqtt}
use ruq.Protocol.Reason.Connack.{connack_reason_try_from}
use ruq.Protocol.Reason.Suback.{suback_reason_try_from}
use ruq.Protocol.Reason.Unsuback.{unsuback_reason_try_from}
use ruq.Protocol.Ack.Connack.{connack_flags_try_from, connack_from_mqtt}
use ruq.Protocol.Ack.Suback.{suback_from_mqtt}
use ruq.Protocol.Ack.Unsuback.{unsuback_from_mqtt}
use ruq.Protocol.Ack.Puback.{puback_reason_at, puback_from_mqtt, no_properties}
use ruq.Protocol.Disconnect.{disconnect_reason_at, disconnect_from_mqtt}
use ruq.Protocol.Requests.{pingresp_from_mqtt}
use ruq.Protocol.Packet.{
  PacketType, connect_type, connack_type, publish_type, pub_ack_type, pub_received_type,
  pub_release_type, pub_complete_type, subscribe_type, subscribe_ack_type, unsubscribe_type,
  unsubscribe_ack_type, ping_request_type, ping_response_type, disconnect_type, auth_type, parse_as,
  parse_known, parse_pkt, parse_fixed_header,
}
use ruq.Protocol.Typed.{
  AreBytes, IsTypedPayload, IsTypedPublish, IsOptionalId, IsTypedAck, IsTypedDisconnect,
  IsTypedPuback, IsTypedProperty, IsTypedAnswer,
}
use ruq.Protocol.Typed.Parts.{
  slice_from-AreBytes, slice-AreBytes, string_from-IsString, pktid_from-IsPktId,
  properties_from-All,
}
use ruq.Protocol.Typed.Properties.{
  property_from-IsTyped, ack_properties_from-IsTyped, disconnect_properties_from-IsTyped,
  puback_properties_from-IsTyped, none-IsTyped,
}

read_pktid-IsOptionalId :
    (above : Bool) (bs : Bytes) (n : ℕ)
    → AreBytes bs
    → Gives (λ r. IsOptionalId r.0) (read_pktid above bs n)
read_pktid-IsOptionalId false bs n h = Gives-ok _ tt
read_pktid-IsOptionalId true bs n h =
    Gives-then (slice_from-AreBytes bs n h)
      (λ b hb. Gives-then (pktid_from-IsPktId b hb) (λ id hid. Gives-ok _ hid))

read_payload-IsTyped :
    (utf8 : Bool) (bs : Bytes) → AreBytes bs → Gives IsTypedPayload (read_payload utf8 bs)
read_payload-IsTyped false bs h = Gives-ok _ h
read_payload-IsTyped true bs h = elim (Bool-cases (is_utf8 bs)) [
  | inl valid ↦ rw valid (Gives-ok _ (h, valid))
  | inr broken ↦ rw broken (Gives-err _)
]

publish_from-IsTyped :
    (bs : Bytes) → AreBytes bs → Gives (λ r. IsTypedPublish r.0) (publish_from_mqtt bs)
unfolding publish_from_mqtt
publish_from-IsTyped bs h =
    Gives-then (Gives-any (ok_or not_enough_bytes (get_elem? bs 0))) (λ byte _.
      Gives-then (Gives-any (flags_try_from byte)) (λ flags _.
        Gives-then (Gives-any (slice_from bs 1)) (λ at_len _.
          Gives-then (Gives-any (vbi_from_mqtt at_len)) (λ l _.
            Gives-if (ltb (length bs) (l.1 + l.0 + 1)) _ _ (Gives-err _) (
              Gives-then (slice_from-AreBytes bs _ h) (λ at_topic ht.
                Gives-then (string_from-IsString at_topic ht) (λ topic hs.
                  Gives-then (read_pktid-IsOptionalId (above_at_most_once flags.qos) bs _ h)
                    (λ id hid. Gives-then (slice_from-AreBytes bs _ h) (λ at_props hp.
                      Gives-then
                        (properties_from-All _ IsTypedProperty property_from-IsTyped at_props hp)
                        (λ ps hps.
                          Gives-then (Gives-any (checked_sub l.0 (topic.1 + id.1 + ps.1)))
                            (λ payload_len _.
                              Gives-then
                                (slice-AreBytes bs (1 + l.1 + topic.1 + id.1 + ps.1)
                                  (1 + l.1 + topic.1 + id.1 + ps.1 + payload_len) h)
                                (λ body hb.
                                  Gives-then (read_payload-IsTyped (says_utf8 ps.0) body hb)
                                    (λ payload hpay. Gives-ok _ (record {
                                      topic = hs;
                                      payload = hpay;
                                      properties = hps;
                                      pktid = hid;
                                    }))))))))))))))

connack_from-IsTyped :
    (bs : Bytes) → AreBytes bs → Gives (λ r. All IsTypedAck r.0.properties) (connack_from_mqtt bs)
unfolding connack_from_mqtt
connack_from-IsTyped bs h = Gives-then (Gives-any (slice_from bs 1)) (λ at_len _.
    Gives-then (Gives-any (vbi_from_mqtt at_len)) (λ l _.
      Gives-if (ltb (length bs) (1 + l.1 + l.0)) _ _ (Gives-err _) (
        Gives-then (Gives-any (index bs (1 + l.1))) (λ b _.
          Gives-then (Gives-any (connack_flags_try_from b)) (λ flags _.
            Gives-then (Gives-any (index bs (1 + l.1 + 1))) (λ c _.
              Gives-then (Gives-any (connack_reason_try_from c)) (λ reason _.
                Gives-then (slice_from-AreBytes bs _ h) (λ at_props hp.
                  Gives-then (ack_properties_from-IsTyped at_props hp)
                    (λ ps hps. Gives-ok _ hps)))))))))

suback_from-IsTyped :
    (bs : Bytes)
    → AreBytes bs
    → Gives (λ r. IsPktId r.0.pktid × All IsTypedAck r.0.properties) (suback_from_mqtt bs)
unfolding suback_from_mqtt
suback_from-IsTyped bs h = Gives-then (Gives-any (slice_from bs 1)) (λ at_len _.
    Gives-then (Gives-any (vbi_from_mqtt at_len)) (λ l _.
      Gives-if (ltb (length bs) (1 + l.1 + l.0)) _ _ (Gives-err _) (
        Gives-then (slice_from-AreBytes bs _ h) (λ at_id hi.
          Gives-then (pktid_from-IsPktId at_id hi) (λ id hid.
            Gives-then (slice_from-AreBytes bs _ h) (λ at_props hp.
              Gives-then (ack_properties_from-IsTyped at_props hp) (λ ps hps.
                Gives-then (Gives-any (index bs (1 + l.1 + id.1 + ps.1))) (λ c _.
                  Gives-then (Gives-any (suback_reason_try_from c))
                    (λ reason _. Gives-ok _ (hid, hps))))))))))

unsuback_from-IsTyped :
    (bs : Bytes)
    → AreBytes bs
    → Gives (λ r. IsPktId r.0.pktid × All IsTypedAck r.0.properties) (unsuback_from_mqtt bs)
unfolding unsuback_from_mqtt
unsuback_from-IsTyped bs h = Gives-then (Gives-any (slice_from bs 1)) (λ at_len _.
    Gives-then (Gives-any (vbi_from_mqtt at_len)) (λ l _.
      Gives-if (ltb (length bs) (1 + l.1 + l.0)) _ _ (Gives-err _) (
        Gives-then (slice_from-AreBytes bs _ h) (λ at_id hi.
          Gives-then (pktid_from-IsPktId at_id hi) (λ id hid.
            Gives-then (slice_from-AreBytes bs _ h) (λ at_props hp.
              Gives-then (ack_properties_from-IsTyped at_props hp) (λ ps hps.
                Gives-then (Gives-any (index bs (1 + l.1 + id.1 + ps.1))) (λ c _.
                  Gives-then (Gives-any (unsuback_reason_try_from c))
                    (λ reason _. Gives-ok _ (hid, hps))))))))))

-- The properties at the offset, which a remaining length below 4 leaves out.
module _ {P : Type 0} (Q : P → Type 0) (none_read : P) (hn : Q none_read) {read : Bytes → Decoded P}
    (each : (bs : Bytes) → AreBytes bs → Gives (λ r. Q r.0) (read bs)) where
  optional_properties :
      (remaining : ℕ) (bs : Bytes) (at_props : ℕ)
      → AreBytes bs
      → Gives {A = P × ℕ}
          (λ r. Q r.0)
          (if ltb remaining 4 then ok (none_read, at_props) else (do
            (properties, n) ← read (← slice_from bs at_props)
            ok (properties, at_props + n)))
  optional_properties remaining bs at_props h = Gives-if (ltb remaining 4) _ _ (Gives-ok _ hn) (
      Gives-then (slice_from-AreBytes bs at_props h)
        (λ b hb. Gives-then (each b hb) (λ ps hps. Gives-ok _ hps)))

puback_from-IsTyped :
    (bs : Bytes)
    → AreBytes bs
    → Gives (λ r. IsPktId r.0.pktid × IsTypedPuback r.0.properties) (puback_from_mqtt bs)
unfolding puback_from_mqtt puback_reason_at
puback_from-IsTyped bs h = Gives-then (Gives-any (slice_from bs 1)) (λ at_len _.
    Gives-then (Gives-any (vbi_from_mqtt at_len)) (λ l _.
      Gives-if (ltb (length bs) (1 + l.1 + l.0)) _ _ (Gives-err _) (
        Gives-then (slice_from-AreBytes bs _ h) (λ at_id hi.
          Gives-then (pktid_from-IsPktId at_id hi) (λ id hid.
            Gives-then (Gives-any (puback_reason_at l.0 bs (1 + l.1 + id.1))) (λ reason _.
              Gives-then
                (optional_properties IsTypedPuback no_properties none-IsTyped
                  puback_properties_from-IsTyped l.0 bs reason.1 h)
                (λ ps hps. Gives-ok _ (hid, hps))))))))

disconnect_from-IsTyped :
    (bs : Bytes)
    → AreBytes bs
    → Gives (λ r. All IsTypedDisconnect r.0.properties) (disconnect_from_mqtt bs)
unfolding disconnect_from_mqtt disconnect_reason_at
disconnect_from-IsTyped bs h = Gives-then (Gives-any (slice_from bs 1)) (λ at_len _.
    Gives-then (Gives-any (vbi_from_mqtt at_len)) (λ l _.
      Gives-if (ltb (length bs) (1 + l.1 + l.0)) _ _ (Gives-err _) (
        Gives-then (Gives-any (disconnect_reason_at l.0 bs (1 + l.1))) (λ reason _.
          Gives-then
            (optional_properties (All IsTypedDisconnect) [] tt disconnect_properties_from-IsTyped
              l.0 bs reason.1 h)
            (λ ps hps. Gives-ok _ hps)))))

parse_as-IsTyped :
    (ty : PacketType) (bs : Bytes) → AreBytes bs → Gives IsTypedAnswer (parse_as ty bs)
unfolding parse_as
parse_as-IsTyped connack_type bs h = Gives-then (connack_from-IsTyped bs h) (λ r hr. Gives-ok _ hr)
parse_as-IsTyped publish_type bs h = Gives-then (publish_from-IsTyped bs h) (λ r hr. Gives-ok _ hr)
parse_as-IsTyped pub_ack_type bs h = Gives-then (puback_from-IsTyped bs h) (λ r hr. Gives-ok _ hr)
parse_as-IsTyped subscribe_ack_type bs h =
    Gives-then (suback_from-IsTyped bs h) (λ r hr. Gives-ok _ hr)
parse_as-IsTyped unsubscribe_ack_type bs h =
    Gives-then (unsuback_from-IsTyped bs h) (λ r hr. Gives-ok _ hr)
parse_as-IsTyped ping_response_type bs h =
    Gives-then (Gives-any (pingresp_from_mqtt bs)) (λ r _. Gives-ok _ tt)
parse_as-IsTyped disconnect_type bs h =
    Gives-then (disconnect_from-IsTyped bs h) (λ r hr. Gives-ok _ hr)
parse_as-IsTyped connect_type bs h = Gives-panic
parse_as-IsTyped pub_received_type bs h = Gives-panic
parse_as-IsTyped pub_release_type bs h = Gives-panic
parse_as-IsTyped pub_complete_type bs h = Gives-panic
parse_as-IsTyped subscribe_type bs h = Gives-panic
parse_as-IsTyped unsubscribe_type bs h = Gives-panic
parse_as-IsTyped ping_request_type bs h = Gives-panic
parse_as-IsTyped auth_type bs h = Gives-panic

known-IsTyped :
    (ty : Option PacketType) (bs : Bytes) → AreBytes bs → Gives IsTypedAnswer (parse_known ty bs)
known-IsTyped none bs h = Gives-err _
known-IsTyped (some ty) bs h = Gives-map_err _ (parse_as ty bs) (parse_as-IsTyped ty bs h)

pub parse_pkt-IsTyped : (bs : Bytes) → AreBytes bs → Gives IsTypedAnswer (parse_pkt bs)
unfolding parse_pkt
parse_pkt-IsTyped bs h =
    Gives-then (Gives-any (index bs 0)) (λ b _. known-IsTyped (parse_fixed_header b) bs h)
