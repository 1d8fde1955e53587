-- ===== src/Protocol/Requests.antt =====
-- The packets that the client sends and never reads: src/protocol/connect.rs, subscribe.rs,
-- unsubscribe.rs and pingreq.rs; and the PINGRESP of pingresp.rs, which has no content.
use ruq.Base.{ℕ, ◌+◌, Bool, false, List, [], ◌∷◌, ◌++◌, length, ltb, if◌then◌else◌, ok, err}
use ruq.Protocol.{Bytes, Decoded, not_enough_bytes}
use ruq.Protocol.Vbi.{vbi_to_mqtt}
use ruq.Protocol.Text.{u16_to_be, text_to_mqtt}
use ruq.Protocol.PktId.{pktid_to_mqtt}
use ruq.Protocol.Qos.{QoS, qos_to_u8}
use ruq.Protocol.Frame.{frame}

pub record Connect : Type 0 where
  pub client_id : Bytes
  pub keep_alive : ℕ

-- `Connect::new`, and `Connect::keep_alive`, which sets the u16.
unfoldable pub connect_new : Bytes → Connect
connect_new client_id = record { client_id = client_id; keep_alive = 0 }

unfoldable pub set_keep_alive : ℕ → Connect → Connect
set_keep_alive keep_alive c = record c { keep_alive = keep_alive }

-- The text "MQTT".
abbrev pub protocol_name : Bytes
protocol_name = b'M' ∷ b'Q' ∷ b'T' ∷ b'T' ∷ []

-- `Connect::convert_to_mqtt`: name, version 5, flags with `clean_start`, keep alive, no
-- properties, client identifier.
unfoldable pub connect_to_mqtt : Connect → Bytes
connect_to_mqtt c = frame 0x10 (
    text_to_mqtt protocol_name
    ++ (5 ∷ 2 ∷ (u16_to_be c.keep_alive ++ (vbi_to_mqtt 0 ++ text_to_mqtt c.client_id))))

pub record Subscribe : Type 0 where
  pub topic : Bytes
  pub pktid : ℕ
  pub qos : QoS
  pub no_local : Bool
  pub retain_as_published : Bool

-- `Subscribe::new`.
unfoldable pub subscribe_new : Bytes → ℕ → QoS → Subscribe
subscribe_new topic pktid qos = record {
  topic = topic;
  pktid = pktid;
  qos = qos;
  no_local = false;
  retain_as_published = false;
}

-- `Subscribe::options`.
unfoldable pub subscribe_options : Subscribe → ℕ
subscribe_options s =
    qos_to_u8 s.qos + (if s.no_local then 4 else 0) + (if s.retain_as_published then 8 else 0)

-- `Subscribe::convert_to_mqtt`.
unfoldable pub subscribe_to_mqtt : Subscribe → Bytes
subscribe_to_mqtt s =
    frame 0x82 (pktid_to_mqtt s.pktid ++ (0 ∷ (text_to_mqtt s.topic ++ (subscribe_options s ∷ []))))

pub record Unsubscribe : Type 0 where
  pub topics : List Bytes
  pub pktid : ℕ

-- `Unsubscribe::new`.
unfoldable pub unsubscribe_new : List Bytes → ℕ → Unsubscribe
unsubscribe_new topics pktid = record { topics = topics; pktid = pktid }

-- `for topic in &self.topics`.
unfoldable pub topics_to_mqtt : List Bytes → Bytes
topics_to_mqtt [] = []
topics_to_mqtt (topic ∷ topics) = text_to_mqtt topic ++ topics_to_mqtt topics

-- `Unsubscribe::convert_to_mqtt`.
unfoldable pub unsubscribe_to_mqtt : Unsubscribe → Bytes
unsubscribe_to_mqtt u = frame 0xa2 (pktid_to_mqtt u.pktid ++ (0 ∷ topics_to_mqtt u.topics))

-- `PingReq::convert_to_mqtt`.
unfoldable pub pingreq_to_mqtt : Bytes
pingreq_to_mqtt = 0xc0 ∷ 0 ∷ []

-- `PingResp::convert_from_mqtt`: nothing is read but the length of the slice.
unfoldable pub pingresp_from_mqtt : Bytes → Decoded (Unit {0})
pingresp_from_mqtt buf = if ltb (length buf) 2 then err not_enough_bytes else ok (tt, 2)
