-- ===== src/Protocol/Packet.antt =====
-- src/protocol/mod.rs, `Packet`, `PacketType` and `parse_pkt`.
use ruq.Base.{
  ℕ, ◌/◌, Option, none, some, ◌==◌, if◌then◌else◌, Outcome, ok, err, panic, ◌>>=◌, map_err, index,
  get_elem?, ◌≡◌, refl, [], ◌∷◌,
}
use ruq.Protocol.{Bytes, ConvertError, Decoded, IoError, invalid_data}
use ruq.Protocol.Publish.{Publish, publish_to_mqtt, publish_from_mqtt}
use ruq.Protocol.Ack.Connack.{Connack, connack_from_mqtt}
use ruq.Protocol.Ack.Suback.{Suback, suback_from_mqtt}
use ruq.Protocol.Ack.Unsuback.{Unsuback, unsuback_from_mqtt}
use ruq.Protocol.Ack.Puback.{Puback, puback_from_mqtt}
use ruq.Protocol.Disconnect.{Disconnect, disconnect_to_mqtt, disconnect_from_mqtt}
use ruq.Protocol.Requests.{
  Connect, connect_to_mqtt, Subscribe, subscribe_to_mqtt, Unsubscribe, unsubscribe_to_mqtt,
  pingreq_to_mqtt, pingresp_from_mqtt,
}

pub data Packet : Type 0 where
  connect : Connect → Packet
  connack : Connack → Packet
  publish : Publish → Packet
  pub_ack : Puback → Packet
  ping_req : Packet
  ping_resp : Packet
  subscribe : Subscribe → Packet
  sub_ack : Suback → Packet
  unsubscribe : Unsubscribe → Packet
  unsub_ack : Unsuback → Packet
  disconnect : Disconnect → Packet

-- `Packet::convert_to_mqtt`: `unimplemented!` is a panic.
unfoldable pub packet_to_mqtt : Packet → Outcome IoError Bytes
packet_to_mqtt (connect p) = ok (connect_to_mqtt p)
packet_to_mqtt (publish p) = publish_to_mqtt p
packet_to_mqtt ping_req = ok pingreq_to_mqtt
packet_to_mqtt (subscribe p) = ok (subscribe_to_mqtt p)
packet_to_mqtt (unsubscribe p) = ok (unsubscribe_to_mqtt p)
packet_to_mqtt (disconnect p) = ok (disconnect_to_mqtt p)
packet_to_mqtt ping_resp = panic
packet_to_mqtt (connack p) = panic
packet_to_mqtt (pub_ack p) = panic
packet_to_mqtt (sub_ack p) = panic
packet_to_mqtt (unsub_ack p) = panic

pub data PacketType : Type 0 where
  connect_type connack_type publish_type pub_ack_type pub_received_type : PacketType
  pub_release_type pub_complete_type subscribe_type subscribe_ack_type : PacketType
  unsubscribe_type unsubscribe_ack_type ping_request_type ping_response_type : PacketType
  disconnect_type auth_type : PacketType

-- `PacketType::try_from(u8)`, which `parse_fixed_header` is.
unfoldable pub parse_fixed_header : ℕ → Option PacketType
parse_fixed_header b =
    let ty = b / 16 in
    if ty == 1
    then some connect_type
    else if ty == 2
    then some connack_type
    else if ty == 3
    then some publish_type
    else if ty == 4
    then some pub_ack_type
    else if ty == 5
    then some pub_received_type
    else if ty == 6
    then some pub_release_type
    else if ty == 7
    then some pub_complete_type
    else if ty == 8
    then some subscribe_type
    else if ty == 9
    then some subscribe_ack_type
    else if ty == 10
    then some unsubscribe_type
    else if ty == 11
    then some unsubscribe_ack_type
    else if ty == 12
    then some ping_request_type
    else if ty == 13
    then some ping_response_type
    else if ty == 14
    then some disconnect_type
    else if ty == 15
    then some auth_type
    else none

-- `.map(|(pkt, _)| Some(Packet::…(pkt)))`.
abbrev pub as_packet :
    {A : Type 0} → (A → Packet) → Decoded A → Outcome ConvertError (Option Packet)
as_packet wrap decoded = decoded >>= λ (pkt, _). ok (some (wrap pkt))

-- The `match` of `parse_pkt`: the types that the client does not expect are `unimplemented!`.
unfoldable pub parse_as : PacketType → Bytes → Outcome ConvertError (Option Packet)
parse_as publish_type buf = as_packet publish (publish_from_mqtt buf)
parse_as connack_type buf = as_packet connack (connack_from_mqtt buf)
parse_as ping_response_type buf = as_packet (λ _. ping_resp) (pingresp_from_mqtt buf)
parse_as subscribe_ack_type buf = as_packet sub_ack (suback_from_mqtt buf)
parse_as unsubscribe_ack_type buf = as_packet unsub_ack (unsuback_from_mqtt buf)
parse_as pub_ack_type buf = as_packet pub_ack (puback_from_mqtt buf)
parse_as disconnect_type buf = as_packet disconnect (disconnect_from_mqtt buf)
parse_as _ buf = panic

abbrev pub parse_known : Option PacketType → Bytes → Outcome IoError (Option Packet)
parse_known none buf = err invalid_data
parse_known (some ty) buf = map_err (λ _. invalid_data) (parse_as ty buf)

-- `parse_pkt`: every error becomes one of the kind `InvalidData`.
unfoldable pub parse_pkt : Bytes → Outcome IoError (Option Packet)
parse_pkt buf = do first ← index buf 0; parse_known (parse_fixed_header first) buf

-- The first byte alone decides which decoder reads the packet.
pub parse_pkt-parse_as :
    (buf : Bytes) (first : ℕ) (ty : PacketType)
    → get_elem? buf 0 ≡ some first
    → parse_fixed_header first ≡ some ty
    → parse_pkt buf ≡ map_err (λ _. invalid_data) (parse_as ty buf)
unfolding parse_pkt
parse_pkt-parse_as [] first ty e known = cc
parse_pkt-parse_as (b ∷ buf) first ty e known =
    let head : parse_fixed_header b ≡ some ty = rw (let q : b ≡ first = cc e in q) known in
    rw head refl
