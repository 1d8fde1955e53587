-- ===== src/EventLoop/Refines.antt =====
-- A round of `poll` in src/lib.rs does what the machine of EventLoop/Spec allows.
pub mod Calls
use ruq.Base.{
  ℕ, ◌≡◌, refl, sym, ◌∙◌, ap, Bool, true, false, Option, none, some, ok, err, panic, out_of_fuel,
  ◌>>=◌, List, [], ◌∷◌, ◌++◌, arith, if◌then◌else◌,
}
use ruq.Protocol.{Bytes, IoError}
use ruq.Protocol.Qos.{QoS, at_most_once, at_least_once, exactly_once}
use ruq.Protocol.Property.{Property}
use ruq.Protocol.Publish.{
  Payload, Publish, publish_to_mqtt, new, new_at_most_once, new_at_least_once, new_exactly_once,
}
use ruq.Protocol.Reason.Disconnect.{DisconnectReason, normal}
use ruq.Protocol.Disconnect.{Disconnect}
use ruq.Protocol.Packet.{Packet, packet_to_mqtt}
use ruq.PktIds.{PktIds, Run, next_id}
use ruq.PktIds.Chain.{Holds}
use ruq.PktIds.Next.{without, Answers, handed_out, used_up, overflowed, next_id-Answers}
use ruq.PktIds.Return.{with_id, return_id-Holds}
use ruq.Client.{Command}
use ruq.EventLoop.{
  Session, Output, wrote, Event, tick, received, read_failed, stream_done, commanded,
  commands_closed, go, Round, round, is_some_false, on_tick, send, on_packet, on_command, give_back,
  fresh, on_publish, on_disconnect, on_publish_command, remove_first,
}
use ruq.EventLoop.Invariant.{InUse}
use ruq.EventLoop.Spec
use ruq.EventLoop.Spec.{
  View, Views, HandsOut, Encodes, Step, Stops, Writes, Fails, NeedsId, Panics, Allowed,
}
use ruq.EventLoop.Refines.Calls.{Allowed-send, Allowed-fresh, Allowed-give_back, Allowed-if}

-- The acknowledgement is for an identifier in use.
unfoldable pub Expected : View → Event → Type 0
Expected v (received (Packet.pub_ack m)) = InUse v.free m.pktid
Expected v (received (Packet.sub_ack m)) = InUse v.free m.pktid
Expected v (received (Packet.unsub_ack m)) = InUse v.free m.pktid
Expected v _ = Unit

module _ (v : View) (w : Option IoError) (s : Session) (h : Views v s) where
  Allowed-tick : Allowed v w tick (on_tick w s)
  unfolding on_tick packet_to_mqtt
  Allowed-tick =
      Allowed-if v w tick (is_some_false s.pingresp_received) _ _
        (λ owed. Fails.no_pong (sym h.same_ping ∙ owed))
        (λ none_owed.
          Allowed-send v w tick Packet.ping_req _ _ (Writes.on_tick (sym h.same_ping ∙ none_owed))
            refl
            (λ takes. (
              record v { owed = true },
              Step.ping takes (sym h.same_ping ∙ none_owed) refl,
              record { held = h.held; same_queue = h.same_queue; same_ping = refl },
            )))

  Allowed-publish :
      (m : Publish) (q : QoS) (o : Option ℕ)
      → m.flags.qos ≡ q
      → Allowed v w (received (Packet.publish m)) (on_publish w s m q o)
  unfolding on_publish send packet_to_mqtt
  Allowed-publish m at_most_once o q = (v, Step.plain (Spec.publish_plain q), h)
  Allowed-publish m at_least_once none q = Panics.must_ack (λ z. cc (q, z))
  Allowed-publish m at_least_once (some id) q = must w
    where
      must :
          (o : Option IoError)
          → Allowed v w (received (Packet.publish m)) (on_publish o s m at_least_once (some id))
      must none = Panics.must_ack (λ z. cc (q, z))
      must (some x) = Panics.must_ack (λ z. cc (q, z))
  Allowed-publish m exactly_once o q = Panics.must_ack (λ z. cc (q, z))

  Allowed-disconnect :
      (d : Disconnect) (r : DisconnectReason)
      → d.reason ≡ r
      → Allowed v w (received (Packet.disconnect d)) (on_disconnect r)
  unfolding on_disconnect
  Allowed-disconnect d normal q = Stops.server_left q
  Allowed-disconnect d _ q = Fails.server_fault (λ z. cc (q, z))

  Allowed-packet :
      (p : Packet) → Expected v (received p) → Allowed v w (received p) (on_packet w s p)
  unfolding on_packet Expected
  Allowed-packet (Packet.disconnect d) u = Allowed-disconnect d d.reason refl
  Allowed-packet Packet.ping_resp u = (
    record v { owed = false },
    Step.pong,
    record { held = h.held; same_queue = h.same_queue; same_ping = refl },
  )
  Allowed-packet (Packet.sub_ack m) u =
      Allowed-give_back v w (received (Packet.sub_ack m)) m.pktid s _ h.held u (λ p held. (
        record v { free = with_id v.free m.pktid },
        Step.subscribed m,
        record { held = held; same_queue = h.same_queue; same_ping = h.same_ping },
      ))
  Allowed-packet (Packet.unsub_ack m) u =
      Allowed-give_back v w (received (Packet.unsub_ack m)) m.pktid s _ h.held u (λ p held. (
        record v { free = with_id v.free m.pktid },
        Step.unsubscribed m,
        record { held = held; same_queue = h.same_queue; same_ping = h.same_ping },
      ))
  Allowed-packet (Packet.pub_ack m) u =
      Allowed-give_back v w (received (Packet.pub_ack m)) m.pktid
        (record s { queue = remove_first m.pktid s.queue }) [] h.held u
        (λ p held. (
          record v { free = with_id v.free m.pktid; in_flight = remove_first m.pktid v.in_flight },
          Step.acked m,
          record {
            held = held;
            same_queue = ap (remove_first m.pktid) h.same_queue;
            same_ping = h.same_ping;
          },
        ))
  Allowed-packet (Packet.publish m) u = Allowed-publish m m.flags.qos m.pktid refl
  Allowed-packet (Packet.connect c) u = (v, Step.plain Spec.connect_plain, h)
  Allowed-packet (Packet.connack c) u = (v, Step.plain Spec.connack_plain, h)
  Allowed-packet Packet.ping_req u = (v, Step.plain Spec.ping_req_plain, h)
  Allowed-packet (Packet.subscribe c) u = (v, Step.plain Spec.subscribe_plain, h)
  Allowed-packet (Packet.unsubscribe c) u = (v, Step.plain Spec.unsubscribe_plain, h)

  -- A packet with the identifier that was taken is written, and the queue stays.
  taken-Views :
      (id : ℕ) (p : PktIds)
      → Holds 65535 (without v.free id) p
      → Views (record v { free = without v.free id }) (record s { pktids = p })
  taken-Views id p held = record { held = held; same_queue = h.same_queue; same_ping = h.same_ping }

  Allowed-publish_command :
      (topic : Bytes) (payload : Payload) (ps : List Property) (q : QoS) (retain : Bool)
      → Allowed v w
          (commanded (Command.publish topic payload ps q retain))
          (on_publish_command w s topic payload ps q retain)
  unfolding on_publish_command packet_to_mqtt publish_to_mqtt new_at_most_once new_at_least_once
      new_exactly_once new
  Allowed-publish_command topic payload ps at_most_once retain =
      let c = Command.publish topic payload ps at_most_once retain in
      Allowed-send v w (commanded c) _ _ _ Writes.without_id refl
        (λ takes. (v, Step.publish_zero takes refl, h))
  Allowed-publish_command topic payload ps at_least_once retain =
      let c = Command.publish topic payload ps at_least_once retain in
      Allowed-fresh v w (commanded c) s _ h.held (Panics.no_id (NeedsId.for_publish (λ z. cc z)))
        (λ id p least held.
          Allowed-send v w (commanded c) _ _ _
            (Writes.with_id_taken (NeedsId.for_publish (λ z. cc z)) least) refl
            (λ takes. (
              _,
              Step.publish_one id takes least refl,
              record {
                held = held;
                same_queue =
                    ap
                      (λ (l : List (ℕ × Publish)).
                        l ++ ((id, new_at_least_once topic payload retain ps id) ∷ []))
                      h.same_queue;
                same_ping = h.same_ping;
              },
            )))
  Allowed-publish_command topic payload ps exactly_once retain =
      let c = Command.publish topic payload ps exactly_once retain in
      Allowed-fresh v w (commanded c) s _ h.held (Panics.no_id (NeedsId.for_publish (λ z. cc z)))
        (λ id p least held.
          Allowed-send v w (commanded c) _ _ _
            (Writes.with_id_taken (NeedsId.for_publish (λ z. cc z)) least) refl
            (λ takes. (_, Step.publish_two id takes least refl, taken-Views id p held)))

  Allowed-command : (c : Command) → Allowed v w (commanded c) (on_command w s c)
  unfolding on_command packet_to_mqtt
  Allowed-command (Command.publish topic payload ps q retain) =
      Allowed-publish_command topic payload ps q retain
  Allowed-command (Command.subscribe topic qos) =
      let c = Command.subscribe topic qos in
      Allowed-fresh v w (commanded c) s _ h.held (Panics.no_id NeedsId.for_subscribe)
        (λ id p least held.
          Allowed-send v w (commanded c) _ _ _ (Writes.with_id_taken NeedsId.for_subscribe least)
            refl (λ takes. (_, Step.subscribe id takes least refl, taken-Views id p held)))
  Allowed-command (Command.unsubscribe topics) =
      let c = Command.unsubscribe topics in
      Allowed-fresh v w (commanded c) s _ h.held (Panics.no_id NeedsId.for_unsubscribe)
        (λ id p least held.
          Allowed-send v w (commanded c) _ _ _ (Writes.with_id_taken NeedsId.for_unsubscribe least)
            refl (λ takes. (_, Step.unsubscribe id takes least refl, taken-Views id p held)))
  Allowed-command Command.disconnect =
      Allowed-send v w (commanded Command.disconnect) _ _ _ Writes.on_leave refl
        (λ takes. Stops.client_left takes refl)

-- From a state of the view `v`, on any event but an acknowledgement of an identifier that is free:
-- the round goes on to a state of a view that the machine steps to, with its output; or it ends the
-- loop well, with an error, or by a panic, and then under the conditions that the machine has for
-- that. A round goes on or ends well with a write only where the socket takes it. It does end.
pub round-Allowed :
    (v : View) (w : Option IoError) (s : Session) (e : Event)
    → Views v s
    → Expected v e
    → Allowed v w e (round w e s)
unfolding round
round-Allowed v w s tick h u = Allowed-tick v w s h
round-Allowed v w s (received p) h u = Allowed-packet v w s h p u
round-Allowed v w s (read_failed x) h u = Fails.unreadable
round-Allowed v w s stream_done h u = Stops.stream_ended
round-Allowed v w s (commanded c) h u = Allowed-command v w s h c
round-Allowed v w s commands_closed h u = (v, Step.idle, h)
