-- ===== src/Server/Requests.antt =====
-- The requests of src/protocol, connect.rs, subscribe.rs, unsubscribe.rs and pingreq.rs, as a server
-- reads them.
use ruq.Base.{
  ℕ, ◌^◌, ◌<◌, All, ◌≡◌, refl, Bool, true, false, some, List, [], ◌∷◌, ◌++◌, arith, length,
  length-append, ok, append-nil,
}
use ruq.Protocol.{Bytes}
use ruq.Protocol.Vbi.{vbi_to_mqtt}
use ruq.Protocol.Vbi.Encode.{vbi_to_last}
use ruq.Protocol.Text.{u16_to_be, text_to_mqtt}
use ruq.Server.Reader.{
  Request, connects, subscribes, unsubscribes, pings, read_vbi, read_u8, read_some, read_body,
  read_request,
}
use ruq.Protocol.Packet.{Packet, packet_to_mqtt}
use ruq.Protocol.PktId.{IsPktId, pktid_to_mqtt}
use ruq.Protocol.Qos.{QoS, at_most_once, at_least_once, exactly_once, qos_to_u8}
use ruq.Protocol.Requests.{
  Connect, connect_to_mqtt, protocol_name, Subscribe, subscribe_options, subscribe_to_mqtt,
  unsubscribe_to_mqtt, topics_to_mqtt, pingreq_to_mqtt,
}
use ruq.Server.Reader.{
  qos_of, filter_of, read_filter, read_name, read_connect, read_subscribe, read_unsubscribe,
  all_read, connect_flags, same_bytes,
}
use ruq.Server.Reads.{
  then_some, read_text-text_to, read_u16-to_be, read_request-frame, read_id-to_be, read_none-zero,
  read_none-vbi, length-text_to, length-topics_to, length-id_then, read_some-topics,
  read_bytes-append,
}

-- What a request says. Nothing in it may be too long for the wire, and it names a topic.
pub data Means : Packet → Request → Type 0 where
  connect_means :
      (c : Connect)
      → length c.client_id < 2 ^ 16
      → c.keep_alive < 2 ^ 16
      → Means (Packet.connect c) (connects c.client_id c.keep_alive true)
  subscribe_means :
      (s : Subscribe)
      → length s.topic < 2 ^ 16
      → IsPktId s.pktid
      → Means (Packet.subscribe s) (
          subscribes s.pktid (
            record {
              topic = s.topic;
              qos = s.qos;
              no_local = s.no_local;
              retain_as_published = s.retain_as_published;
              retain_handling = 0;
            }
            ∷ []))
  unsubscribe_means :
      (id : ℕ) (topic : Bytes) (topics : List Bytes)
      → All (λ t. length t < 2 ^ 16) (topic ∷ topics)
      → length (pktid_to_mqtt id ++ (0 ∷ topics_to_mqtt (topic ∷ topics))) < 2 ^ 28
      → IsPktId id
      → Means
          (Packet.unsubscribe (record { topics = topic ∷ topics; pktid = id }))
          (unsubscribes id (topic ∷ topics))
  ping_means : Means Packet.ping_req pings

options_of :
    (topic : Bytes) (q : QoS) (n r : Bool) (id : ℕ)
    → filter_of topic (
        subscribe_options
          (record { topic = topic; pktid = id; qos = q; no_local = n; retain_as_published = r }))
      ≡ some (record {
        topic = topic;
        qos = q;
        no_local = n;
        retain_as_published = r;
        retain_handling = 0;
      })
unfolding filter_of subscribe_options qos_to_u8 qos_of
options_of topic at_most_once false false id = refl
options_of topic at_most_once false true id = refl
options_of topic at_most_once true false id = refl
options_of topic at_most_once true true id = refl
options_of topic at_least_once false false id = refl
options_of topic at_least_once false true id = refl
options_of topic at_least_once true false id = refl
options_of topic at_least_once true true id = refl
options_of topic exactly_once false false id = refl
options_of topic exactly_once false true id = refl
options_of topic exactly_once true false id = refl
options_of topic exactly_once true true id = refl

connect_body :
    (c : Connect)
    → length c.client_id < 2 ^ 16
    → c.keep_alive < 2 ^ 16
    → read_connect (
        text_to_mqtt protocol_name
        ++ (5 ∷ 2 ∷ (u16_to_be c.keep_alive ++ (vbi_to_mqtt 0 ++ text_to_mqtt c.client_id))))
      ≡ some (connects c.client_id c.keep_alive true)
unfolding read_connect read_name read_u8 same_bytes connect_flags all_read
connect_body c short time =
    then_some _ _ _ (then_some _ _ _ (read_text-text_to protocol_name _ (omega arith)) refl) (
      then_some _ _ _ (read_u16-to_be c.keep_alive _ time) (
        then_some _ _ _ (read_none-vbi _)
          (then_some _ _ _ (rw append-nil at (read_text-text_to c.client_id [] short)) refl)))

subscribe_body :
    (s : Subscribe)
    → length s.topic < 2 ^ 16
    → IsPktId s.pktid
    → read_subscribe
        (pktid_to_mqtt s.pktid ++ (0 ∷ (text_to_mqtt s.topic ++ (subscribe_options s ∷ []))))
      ≡ some (
          subscribes s.pktid (
            record {
              topic = s.topic;
              qos = s.qos;
              no_local = s.no_local;
              retain_as_published = s.retain_as_published;
              retain_handling = 0;
            }
            ∷ []))
unfolding read_subscribe read_some read_filter read_u8 pktid_to_mqtt
subscribe_body s short word = then_some _ _ _ (read_id-to_be s.pktid _ word) (
    then_some _ _ _ (read_none-zero _) (
      then_some _ _ _
        (then_some _ _ _
          (then_some _ _ _ (read_text-text_to s.topic (subscribe_options s ∷ []) short) (
            then_some _ _ _ (options_of s.topic s.qos s.no_local s.retain_as_published s.pktid)
              refl))
          refl)
        refl))

unsubscribe_body :
    (id : ℕ) (topic : Bytes) (topics : List Bytes)
    → All (λ t. length t < 2 ^ 16) (topic ∷ topics)
    → IsPktId id
    → read_unsubscribe (pktid_to_mqtt id ++ (0 ∷ topics_to_mqtt (topic ∷ topics)))
      ≡ some (unsubscribes id (topic ∷ topics))
unfolding read_unsubscribe
unsubscribe_body id topic topics short word = then_some _ _ _ (read_id-to_be id _ word) (
    then_some _ _ _ (read_none-zero _) (
      then_some _ _ _
        (read_some-topics _ topic topics short (
          omega (
            arith,
            length-topics_to topics,
            length-topics_to (topic ∷ topics),
            length-id_then id (topics_to_mqtt (topic ∷ topics)),
          )))
        refl))

connect_fits :
    (c : Connect)
    → length c.client_id < 2 ^ 16
    → length (
        text_to_mqtt protocol_name
        ++ (5 ∷ 2 ∷ (u16_to_be c.keep_alive ++ (vbi_to_mqtt 0 ++ text_to_mqtt c.client_id))))
      < 2 ^ 28
connect_fits c short =
    let props = vbi_to_last 0 (omega arith) in
    rw props (
      omega (
        arith,
        length-text_to c.client_id,
        length-text_to protocol_name,
        length-append (text_to_mqtt protocol_name)
            (5 ∷ 2 ∷ (u16_to_be c.keep_alive ++ (0 ∷ text_to_mqtt c.client_id))),
      ))

subscribe_fits :
    (s : Subscribe)
    → length s.topic < 2 ^ 16
    → length (pktid_to_mqtt s.pktid ++ (0 ∷ (text_to_mqtt s.topic ++ (subscribe_options s ∷ []))))
      < 2 ^ 28
subscribe_fits s short = omega (
  arith,
  length-id_then s.pktid (text_to_mqtt s.topic ++ (subscribe_options s ∷ [])),
  length-text_to s.topic,
  length-append (text_to_mqtt s.topic) (subscribe_options s ∷ []),
)

ping_read : (rest : Bytes) → read_request (pingreq_to_mqtt ++ rest) ≡ some (pings, rest)
unfolding read_request read_u8 read_vbi read_body pingreq_to_mqtt all_read
ping_read rest = then_some _ _ _ (read_bytes-append [] rest) refl

-- Every request that is not too long is encoded without a panic, and a server that goes by the standard
-- reads from its bytes just what it says, whatever follows, and takes just them.
pub read_request-packet_to :
    (p : Packet) (r : Request)
    → Means p r
    → (enc : Bytes) × (packet_to_mqtt p ≡ ok enc)
      × ((rest : Bytes) → read_request (enc ++ rest) ≡ some (r, rest))
unfolding packet_to_mqtt connect_to_mqtt subscribe_to_mqtt unsubscribe_to_mqtt pingreq_to_mqtt
    read_body
read_request-packet_to p r (connect_means c short time) = (
  _,
  refl,
  λ rest. read_request-frame 0x10 _ rest r (connect_fits c short) (connect_body c short time),
)
read_request-packet_to p r (subscribe_means s short word) = (
  _,
  refl,
  λ rest. read_request-frame 0x82 _ rest r (subscribe_fits s short) (subscribe_body s short word),
)
read_request-packet_to p r (unsubscribe_means id topic topics short fits word) = (
  _,
  refl,
  λ rest. read_request-frame 0xa2 _ rest r fits (unsubscribe_body id topic topics short word),
)
read_request-packet_to p r ping_means = (pingreq_to_mqtt, refl, ping_read)
