-- ===== src/EventLoop/Receipt.antt =====
-- src/lib.rs, `poll`: what becomes of an incoming PUBLISH.
use ruq.Base.{◌≡◌, refl, ◌≢◌, Option, none, some, ℕ, panic}
use ruq.Protocol.{IoError}
use ruq.Protocol.Qos.{QoS, at_most_once, at_least_once, exactly_once}
use ruq.Protocol.Publish.{Publish}
use ruq.Protocol.Packet
use ruq.Protocol.Packet.{packet_to_mqtt}
use ruq.EventLoop.{Session, round, received, on_publish, send}

on_publish_acked :
    (w : Option IoError) (s : Session) (m : Publish) (q : QoS) (o : Option ℕ)
    → q ≢ at_most_once
    → on_publish w s m q o ≡ panic
unfolding on_publish send packet_to_mqtt
on_publish_acked w s m at_most_once o h = absurd (h refl)
on_publish_acked w s m at_least_once none h = refl
on_publish_acked none s m at_least_once (some id) h = refl
on_publish_acked (some e) s m at_least_once (some id) h = refl
on_publish_acked w s m exactly_once o h = refl

-- An incoming PUBLISH above QoS 0 panics in every state, with or without an error of the socket:
-- at QoS 1 since the PUBACK that the loop sends has no encoder.
pub round-publish_acked :
    (w : Option IoError) (s : Session) (m : Publish)
    → m.flags.qos ≢ at_most_once
    → round w (received (Packet.publish m)) s ≡ panic
unfolding round
round-publish_acked w s m h = on_publish_acked w s m m.flags.qos m.pktid h
