-- ===== src/Protocol/Typed.antt =====
-- The ranges that the Rust types of src/protocol give for nothing: a `u8` is below 256, a `NonZeroU16`
-- is from 1 to 65535, a `String` is UTF-8. In the model they are predicates on numbers.
pub mod Parts
pub mod Properties
pub mod Read
use ruq.Base.{ℕ, ◌≡◌, Bool, true, ◌^◌, ◌<◌, Option, none, some, List, [], ◌∷◌, ◌++◌, All}
use ruq.Protocol.{Bytes, IsByte}
use ruq.Protocol.Text.{is_utf8}
use ruq.Protocol.PktId.{IsPktId}
use ruq.Protocol.Property.{
  Property, payload_format_id, message_expiry_interval, response_topic, correlation_data,
  user_property,
}
use ruq.Protocol.Publish.{Payload, string, bytes, Publish}
use ruq.Protocol.Ack
use ruq.Protocol.Ack.{AckProperty}
use ruq.Protocol.Ack.Puback.{PubackProperties}
use ruq.Protocol.Disconnect
use ruq.Protocol.Disconnect.{DisconnectProperty}
use ruq.Protocol.Packet
use ruq.Protocol.Packet.{Packet}

abbrev pub AreBytes : Bytes → Type 0
AreBytes bs = All IsByte bs

-- A `String`: its bytes are valid UTF-8.
abbrev pub IsString : Bytes → Type 0
IsString s = AreBytes s × (is_utf8 s ≡ true)

abbrev pub IsTypedProperty : Property → Type 0
IsTypedProperty (payload_format_id v) = IsByte v
IsTypedProperty (message_expiry_interval v) = v < 2 ^ 32
IsTypedProperty (response_topic s) = IsString s
IsTypedProperty (correlation_data b) = AreBytes b
IsTypedProperty (user_property k v) = IsString k × IsString v

abbrev pub IsTypedPayload : Payload → Type 0
IsTypedPayload (string s) = IsString s
IsTypedPayload (bytes b) = AreBytes b

abbrev pub IsOptionalId : Option ℕ → Type 0
IsOptionalId none = Unit
IsOptionalId (some id) = IsPktId id

pub record IsTypedPublish (p : Publish) : Type 0 where
  pub topic : IsString p.topic
  pub payload : IsTypedPayload p.payload
  pub properties : All IsTypedProperty p.properties
  pub pktid : IsOptionalId p.pktid

abbrev pub IsTypedAck : AckProperty → Type 0
IsTypedAck (Ack.reason_string s) = IsString s
IsTypedAck (Ack.user_property k v) = IsString k × IsString v

abbrev pub IsTypedDisconnect : DisconnectProperty → Type 0
IsTypedDisconnect (Disconnect.session_expiry_interval v) = v < 2 ^ 32
IsTypedDisconnect (Disconnect.reason_string s) = IsString s
IsTypedDisconnect (Disconnect.user_property k v) = IsString k × IsString v

abbrev pub IsOptionalText : Option Bytes → Type 0
IsOptionalText none = Unit
IsOptionalText (some s) = IsString s

abbrev pub AreOptionalBytes : Option Bytes → Type 0
AreOptionalBytes none = Unit
AreOptionalBytes (some bs) = AreBytes bs

pub record IsTypedPuback (p : PubackProperties) : Type 0 where
  pub reason_string : IsOptionalText p.reason_string
  pub user_properties : All (λ kv. IsString kv.0 × IsString kv.1) p.user_properties

-- Every field of the packet has a value of its Rust type.
abbrev pub IsTyped : Packet → Type 0
IsTyped (Packet.connect c) = IsString c.client_id × (c.keep_alive < 2 ^ 16)
IsTyped (Packet.connack p) = All IsTypedAck p.properties
IsTyped (Packet.publish p) = IsTypedPublish p
IsTyped (Packet.pub_ack p) = IsPktId p.pktid × IsTypedPuback p.properties
IsTyped Packet.ping_req = Unit
IsTyped Packet.ping_resp = Unit
IsTyped (Packet.subscribe s) = IsString s.topic × IsPktId s.pktid
IsTyped (Packet.sub_ack p) = IsPktId p.pktid × All IsTypedAck p.properties
IsTyped (Packet.unsubscribe u) = All IsString u.topics × IsPktId u.pktid
IsTyped (Packet.unsub_ack p) = IsPktId p.pktid × All IsTypedAck p.properties
IsTyped (Packet.disconnect d) = All IsTypedDisconnect d.properties

-- An answer that is a packet.
abbrev pub IsTypedAnswer : Option Packet → Type 0
IsTypedAnswer none = Unit
IsTypedAnswer (some p) = IsTyped p
