-- ===== src/Codec/Ends.antt =====
-- src/mqtt_codec.rs: `decode` comes back on every buffer, whatever decoder of src/protocol it calls.
pub mod Fields
use ruq.Base.{
  ℕ, zero, suc, ◌+◌, ◌≢◌, ◌≡◌, refl, Bool, true, false, Option, none, some, [], ◌∷◌, ◌==◌, length,
  ltb, leb, take, arith, Outcome, ok, err, panic, Bool-cases, Option-cases, inl, inr, out_of_fuel,
  ◌>>=◌, if◌then◌else◌, get_elem?, slice, slice_from, index, checked_sub, subst, map_err, ok_or, ap,
}
use ruq.Protocol.{
  Bytes, ConvertError, Decoded, IoError, invalid_data, not_enough_bytes, zero_pkt_id, other,
}
use ruq.Protocol.Vbi.{vbi_from_mqtt}
use ruq.Protocol.Text.{is_utf8, string_from_mqtt}
use ruq.Protocol.PktId.{pktid_from_mqtt}
use ruq.Protocol.Qos.{flags_try_from, qos_try_from}
use ruq.Protocol.Properties.{properties_from_mqtt}
use ruq.Protocol.Properties.Fuel.{
  Ends, Ends-bind, Ends-if, slice_from-Ends, slice-Ends, index-Ends, ok_or-Ends, string_from-Ends,
  vbi_from_loop-Ends,
}
use ruq.Protocol.Property.{property_from_mqtt}
use ruq.Protocol.Property.Ends.{properties_from_mqtt-out_of_fuel}
use ruq.Protocol.Publish.{Publish, publish_from_mqtt, read_pktid, read_payload}
use ruq.Protocol.Reason.Connack.{connack_reason_try_from}
use ruq.Protocol.Reason.Suback.{suback_reason_try_from}
use ruq.Protocol.Reason.Unsuback.{unsuback_reason_try_from}
use ruq.Protocol.Reason.Puback.{puback_reason_try_from}
use ruq.Protocol.Reason.Disconnect.{disconnect_reason_try_from}
use ruq.Protocol.Ack.{ack_properties_from_mqtt}
use ruq.Protocol.Ack.Ends.{ack_properties_from_mqtt-out_of_fuel}
use ruq.Protocol.Ack.Connack.{connack_from_mqtt, connack_flags_try_from}
use ruq.Protocol.Ack.Suback.{suback_from_mqtt}
use ruq.Protocol.Ack.Unsuback.{unsuback_from_mqtt}
use ruq.Protocol.Ack.Puback.{puback_from_mqtt, puback_properties_from_mqtt}
use ruq.Protocol.Ack.Puback.Ends.{puback_properties_from_mqtt-out_of_fuel}
use ruq.Protocol.Disconnect.{disconnect_from_mqtt, disconnect_properties_from_mqtt}
use ruq.Protocol.Disconnect.Ends.{disconnect_properties_from_mqtt-out_of_fuel}
use ruq.Protocol.Requests.{pingresp_from_mqtt}
use ruq.Protocol.Packet.{
  PacketType, connect_type, connack_type, publish_type, pub_ack_type, pub_received_type,
  pub_release_type, pub_complete_type, subscribe_type, subscribe_ack_type, unsubscribe_type,
  unsubscribe_ack_type, ping_request_type, ping_response_type, disconnect_type, auth_type,
  parse_fixed_header, parse_as, parse_pkt, parse_known,
}
use ruq.Codec.{decode, decode_behind_len, max_len}
use ruq.Codec.Ends.Fields.{Returns, Returns-ok, vbi-Returns, reads, fields}

read_pktid-Returns : (b : Bool) (buf : Bytes) (n : ℕ) → Returns (read_pktid b buf n)
read_pktid-Returns false buf n = Returns-ok _
read_pktid-Returns true buf n = search (reads, fields) depth 20

read_payload-Returns : (b : Bool) (body : Bytes) → Returns (read_payload b body)
read_payload-Returns true body = search (reads) depth 20
read_payload-Returns false body = Returns-ok _

-- The decoders of the packets.
connack-Returns : (buf : Bytes) → Returns (connack_from_mqtt buf)
unfolding connack_from_mqtt
connack-Returns buf = search (reads, fields) depth 20

suback-Returns : (buf : Bytes) → Returns (suback_from_mqtt buf)
unfolding suback_from_mqtt
suback-Returns buf = search (reads, fields) depth 20

unsuback-Returns : (buf : Bytes) → Returns (unsuback_from_mqtt buf)
unfolding unsuback_from_mqtt
unsuback-Returns buf = search (reads, fields) depth 20

puback-Returns : (buf : Bytes) → Returns (puback_from_mqtt buf)
unfolding puback_from_mqtt
puback-Returns buf = search (reads, fields) depth 20

disconnect-Returns : (buf : Bytes) → Returns (disconnect_from_mqtt buf)
unfolding disconnect_from_mqtt
disconnect-Returns buf = search (reads, fields) depth 20

publish-Returns : (buf : Bytes) → Returns (publish_from_mqtt buf)
unfolding publish_from_mqtt
publish-Returns buf = search (reads, fields, read_pktid-Returns, read_payload-Returns) depth 40

pingresp-Returns : (buf : Bytes) → Returns (pingresp_from_mqtt buf)
unfolding pingresp_from_mqtt
pingresp-Returns buf = search (reads)

parse_as-Returns : (ty : PacketType) (buf : Bytes) → Returns (parse_as ty buf)
unfolding parse_as
parse_as-Returns connack_type buf = search (reads, connack-Returns)
parse_as-Returns publish_type buf = search (reads, publish-Returns)
parse_as-Returns pub_ack_type buf = search (reads, puback-Returns)
parse_as-Returns subscribe_ack_type buf = search (reads, suback-Returns)
parse_as-Returns unsubscribe_ack_type buf = search (reads, unsuback-Returns)
parse_as-Returns ping_response_type buf = search (reads, pingresp-Returns)
parse_as-Returns disconnect_type buf = search (reads, disconnect-Returns)
parse_as-Returns connect_type buf = record { ends = tt }
parse_as-Returns pub_received_type buf = record { ends = tt }
parse_as-Returns pub_release_type buf = record { ends = tt }
parse_as-Returns pub_complete_type buf = record { ends = tt }
parse_as-Returns subscribe_type buf = record { ends = tt }
parse_as-Returns unsubscribe_type buf = record { ends = tt }
parse_as-Returns ping_request_type buf = record { ends = tt }
parse_as-Returns auth_type buf = record { ends = tt }

kept_error :
    {A : Type 0} (r : Outcome ConvertError A) → Ends r → map_err (λ _. invalid_data) r ≢ out_of_fuel
kept_error (ok a) h e = cc e
kept_error (err x) h e = cc e
kept_error panic h e = cc e
kept_error out_of_fuel h e = h

known : (first : ℕ) (buf : Bytes) (ty : Option PacketType) → parse_known ty buf ≢ out_of_fuel
known first buf none e = cc e
known first buf (some ty) e = kept_error _ (parse_as-Returns ty buf).ends e

parse_pkt-out_of_fuel : (buf : Bytes) → parse_pkt buf ≢ out_of_fuel
unfolding parse_pkt
parse_pkt-out_of_fuel [] e = cc e
parse_pkt-out_of_fuel (b ∷ buf) e = known b (b ∷ buf) (parse_fixed_header b) e

behind_len-out_of_fuel :
    (src : Bytes) (r : Decoded ℕ) → Ends r → (decode_behind_len src r).0 ≢ out_of_fuel
unfolding decode_behind_len
behind_len-out_of_fuel src (ok (len, vbi_len)) h e = elim (Bool-cases (ltb max_len len)) [
  | inl above ↦ cc (rw above at e)
  | inr below ↦ elim (Bool-cases (ltb (length src) (1 + vbi_len + len))) [
    | inl short ↦ cc (rw (below, short) at e)
    | inr whole ↦ parse_pkt-out_of_fuel _ (rw (below, whole) at e)
  ]
]
behind_len-out_of_fuel src (err not_enough_bytes) h e = cc e
behind_len-out_of_fuel src (err zero_pkt_id) h e = cc e
behind_len-out_of_fuel src (err (other m)) h e = cc e
behind_len-out_of_fuel src panic h e = cc e
behind_len-out_of_fuel src out_of_fuel h e = h

-- `decode` comes back on every buffer: whichever decoder it calls, no loop in it runs out of rounds.
pub decode-out_of_fuel : (src : Bytes) → (decode src).0 ≢ out_of_fuel
unfolding decode
decode-out_of_fuel [] e = cc e
decode-out_of_fuel (b ∷ []) e = cc e
decode-out_of_fuel (b ∷ c ∷ src) e = elim (Option-cases (parse_fixed_header b)) [
  | inl unknown ↦ cc (rw (unknown, decode) at e)
  | inr (ty, q) ↦
      behind_len-out_of_fuel (b ∷ c ∷ src) (vbi_from_mqtt (c ∷ src)) (vbi-Returns (c ∷ src)).ends
        (rw (q, decode) at e)
]
