-- ===== src/EventLoop/Exchange.antt =====
-- src/lib.rs, `poll`: a subscription from the command to its SUBACK, and a packet at QoS 1 from the
-- command to its PUBACK.
use ruq.Base.{
  ℕ, ◌^◌, ◌<◌, ◌≡◌, refl, sym, ◌∙◌, List, subst, ◌≢◌, Bool, true, false, none, some, [], ◌∷◌, ◌++◌,
  arith, length, Bool-cases, inl, inr, ok, ◌==◌,
}
use ruq.Protocol.{Bytes}
use ruq.Protocol.PktId.{IsPktId}
use ruq.Protocol.Qos.{QoS, at_least_once}
use ruq.Protocol.Property.{Property}
use ruq.Protocol.Publish.{Payload, new_at_least_once}
use ruq.Protocol.Ack.Puback.{Puback}
use ruq.Protocol.Ack.Suback.{Suback}
use ruq.Protocol.Requests.{subscribe_new}
use ruq.Protocol.Packet.{Packet, packet_to_mqtt}
use ruq.PktIds.Next.{without, next_id-Answers}
use ruq.PktIds.Return.{with_id}
use ruq.Client.{Command}
use ruq.EventLoop.{
  Session, wrote, notified, sub_ack, received, commanded, go, round, send, on_command, remove_first,
}
use ruq.EventLoop.Queue.{remove_first-append, Absent, Absent-out, Queued-without}
use ruq.EventLoop.InFlight.{
  round-publish_queued, round-pub_ack, IsPktId-of_free, Tracks, Took, fresh_cases, round-sub_ack,
}
use ruq.EventLoop.Spec.{Least}
use ruq.Server.Reader.{Filter, subscribes, read_request}
use ruq.Server.Requests.{subscribe_means, read_request-packet_to}

-- The filter that a subscription asks for.
abbrev pub asked : Bytes → QoS → Filter
asked topic qos = record {
  topic = topic;
  qos = qos;
  no_local = false;
  retain_as_published = false;
  retain_handling = 0;
}

-- To take an identifier and give it back changes nothing.
given_back : (free : ℕ → Bool) (id : ℕ) → free id ≡ true → with_id (without free id) id ≡ free
given_back free id out = λ i j. at j i
  where
    at : (j : ℕ) → with_id (without free id) id j ≡ free j
    at j = elim (Bool-cases (j == id)) [
      | inl met ↦
          let same : j ≡ id = ground arith in
          rw met (subst (λ k. true ≡ free k) (sym same) (sym out))
      | inr missed ↦ rw missed refl
    ]

taken_out : (free : ℕ → Bool) (id : ℕ) → without free id id ≡ false
taken_out free id = ground arith

-- The command to subscribe, to a topic below 2 ^ 16 bytes, while an identifier below 65535 is free and
-- the socket takes what is written: the smallest free identifier is taken, and one packet is written,
-- which a server reads as a subscription under it to just that topic and quality of service. Whatever
-- SUBACK with this identifier comes next is passed on, and then the same identifiers are free as
-- before, and the queue is the same.
pub round-subscribe_acked :
    (free : ℕ → Bool) (s : Session) (i : ℕ) (topic : Bytes) (qos : QoS)
    → Tracks free s
    → free i ≡ true
    → i ≢ 65535
    → length topic < 2 ^ 16
    → (id : ℕ) × (s' : Session) × (enc : Bytes) × (round none
          (commanded (Command.subscribe topic qos))
          s
        ≡ ok (go s' (wrote enc ∷ [])))
      × Least free id
      × ((rest : Bytes)
          → read_request (enc ++ rest) ≡ some (subscribes id (asked topic qos ∷ []), rest))
      × ((m : Suback)
          → m.pktid ≡ id
          → (s'' : Session) × (round none (received (Packet.sub_ack m)) s'
              ≡ ok (go s'' (notified (sub_ack m) ∷ [])))
            × Tracks free s''
            × (s''.queue ≡ s.queue))
unfolding round on_command Took send subscribe_new
round-subscribe_acked free s i topic qos h e ne short =
    let (id, p, took, out, least, word, held) =
      fresh_cases free s i _ h.held e ne refl (next_id-Answers 65535 free s.pktids h.held) in
    let (enc, encoded, read) =
      read_request-packet_to (Packet.subscribe (subscribe_new topic id qos))
        (subscribes id (asked topic qos ∷ []))
        (subscribe_means (subscribe_new topic id qos) short word) in
    let s' : Session = record s { pktids = p } in
    let tracks : Tracks (without free id) s' = record {
      held = held;
      queued = Queued-without free id s.queue h.queued;
    } in
    (
      id,
      s',
      enc,
      rw (took, encoded) refl,
      record { out = out; least = least },
      read,
      λ m same.
          let out_of : without free id m.pktid ≡ false =
            subst (λ j. without free id j ≡ false) (sym same) (taken_out free id) in
          let alone : Absent m.pktid s.queue =
            subst (λ j. Absent j s.queue) (sym same) (Absent-out free id s.queue out h.queued) in
          let (s'', e', tracks', queue) =
            round-sub_ack none (without free id) s' m tracks (subst IsPktId (sym same) word) out_of
              alone in
          let back : with_id (without free id) m.pktid ≡ free =
            subst (λ j. with_id (without free id) j ≡ free) (sym same) (given_back free id out) in
          (s'', e', subst (λ f. Tracks f s'') back tracks', queue),
    )

-- The command to publish at QoS 1, while an identifier below 65535 is free and the socket takes what is
-- written: the packet with the smallest free identifier is queued at the end, and its encoding is all
-- that is written. Whatever PUBACK with this identifier comes next takes it out of the queue again, and
-- the same identifiers are free and the queue is the same as before the command.
pub round-publish_command_acked :
    (free : ℕ → Bool) (s : Session) (i : ℕ) (topic : Bytes) (payload : Payload) (ps : List Property)
    (retain : Bool)
    → Tracks free s
    → free i ≡ true
    → i ≢ 65535
    → (id : ℕ) × (s' : Session) × (enc : Bytes) × (round none
          (commanded (Command.publish topic payload ps at_least_once retain))
          s
        ≡ ok (go s' (wrote enc ∷ [])))
      × Least free id
      × (s'.queue ≡ s.queue ++ ((id, new_at_least_once topic payload retain ps id) ∷ []))
      × (packet_to_mqtt (Packet.publish (new_at_least_once topic payload retain ps id)) ≡ ok enc)
      × ((m : Puback)
          → m.pktid ≡ id
          → (s'' : Session) × (round none (received (Packet.pub_ack m)) s' ≡ ok (go s'' []))
            × Tracks free s''
            × (s''.queue ≡ s.queue))
round-publish_command_acked free s i topic payload ps retain h e ne =
    let (id, s', enc, ran, out, least, tracks, queued, encoded) =
      round-publish_queued free s i topic payload ps retain h e ne in
    (
      id,
      s',
      enc,
      ran,
      record { out = out; least = least },
      queued,
      encoded,
      λ m same.
          let word : IsPktId m.pktid =
            subst IsPktId (sym same) (IsPktId-of_free free s.pktids id h.held out) in
          let used : without free id m.pktid ≡ false =
            subst (λ j. without free id j ≡ false) (sym same) (taken_out free id) in
          let (s'', acked, tracks', left, gone) =
            round-pub_ack none (without free id) s' m tracks word used in
          let back : with_id (without free id) m.pktid ≡ free =
            subst (λ j. with_id (without free id) j ≡ free) (sym same) (given_back free id out) in
          let emptied : remove_first m.pktid s'.queue ≡ s.queue =
            rw (same, queued)
              (remove_first-append id _ s.queue (Absent-out free id s.queue out h.queued)) in
          (s'', acked, subst (λ f. Tracks f s'') back tracks', left ∙ emptied),
    )
