-- ===== src/EventLoop/InFlight.antt =====
-- src/lib.rs, `poll`: the queue of unacknowledged packets and the identifiers in use.
use ruq.Base.{
  ℕ, ◌≤◌, ◌≡◌, refl, sym, ◌∙◌, subst, ◌≢◌, Bool, true, false, Option, none, some, Outcome, ok, err,
  panic, out_of_fuel, ◌>>=◌, List, [], ◌∷◌, ◌++◌, arith,
}
use ruq.Protocol.{Bytes, IoError}
use ruq.Protocol.PktId.{IsPktId}
use ruq.Protocol.Qos.{at_least_once}
use ruq.Protocol.Property.{Property}
use ruq.Protocol.Publish.{Payload, new, new_at_least_once, publish_to_mqtt}
use ruq.Protocol.Publish.RoundTrip.{IsPublish}
use ruq.Protocol.Ack.Puback.{Puback}
use ruq.Protocol.Ack.Suback.{Suback}
use ruq.Protocol.Packet.{Packet, packet_to_mqtt}
use ruq.Codec.{encode, decode}
use ruq.Codec.RoundTrip.{decode-encode}
use ruq.PktIds
use ruq.PktIds.{PktIds, Run, next_id}
use ruq.PktIds.Start.{up_to, new_with_max-Holds}
use ruq.PktIds.Chain.{Holds, has_bounds}
use ruq.PktIds.Next.{without, Answers, handed_out, used_up, overflowed, next_id-Answers}
use ruq.PktIds.Return.{with_id, return_id-Holds}
use ruq.Client.{Command}
use ruq.EventLoop.{
  Session, Output, wrote, notified, sub_ack, received, commanded, go, round, send, on_packet,
  on_command, give_back, fresh, on_publish_command, remove_first, session_new,
}
use ruq.EventLoop.Queue.{Absent, Queued, Queued-with, Queued-remove, Queued-append}

-- The invariant of the loop: `free` are the identifiers that the allocator still holds.
pub record Tracks (free : ℕ → Bool) (s : Session) : Type 0 where
  pub held : Holds 65535 free s.pktids
  pub queued : Queued free s.queue

pub give_back-Tracks :
    (free : ℕ → Bool) (id : ℕ) (s : Session) (out : List Output)
    → Holds 65535 free s.pktids
    → Queued (with_id free id) s.queue
    → IsPktId id
    → free id ≡ false
    → (s' : Session) × (give_back id s out ≡ ok (go s' out))
      × Tracks (with_id free id) s'
      × (s'.queue ≡ s.queue)
unfolding give_back
give_back-Tracks free id s out h q word used =
    let (p, e, held) = return_id-Holds 65535 free s.pktids id h (omega arith) (omega arith) used in
    (record s { pktids = p }, rw e refl, record { held = held; queued = q }, refl)

-- A PUBACK for an identifier in use takes the packet with it from the queue, whose other entries
-- keep their order, and gives the identifier back; the queue is consistent again and has no entry
-- with the identifier, and nothing is written or notified.
pub round-pub_ack :
    (w : Option IoError) (free : ℕ → Bool) (s : Session) (m : Puback)
    → Tracks free s
    → IsPktId m.pktid
    → free m.pktid ≡ false
    → (s' : Session) × (round w (received (Packet.pub_ack m)) s ≡ ok (go s' []))
      × Tracks (with_id free m.pktid) s'
      × (s'.queue ≡ remove_first m.pktid s.queue)
      × Absent m.pktid s'.queue
unfolding round on_packet
round-pub_ack w free s m h word used =
    let (gone, rest) = Queued-remove free m.pktid s.queue h.queued in
    let behind : Session = record s { queue = remove_first m.pktid s.queue } in
    let (s', e, tracks, same) = give_back-Tracks free m.pktid behind [] h.held rest word used in
    (s', e, tracks, same, subst (Absent m.pktid) (sym same) gone)

-- A SUBACK for an identifier that is in use by no queued packet gives it back and is passed on; the
-- queue stays.
pub round-sub_ack :
    (w : Option IoError) (free : ℕ → Bool) (s : Session) (m : Suback)
    → Tracks free s
    → IsPktId m.pktid
    → free m.pktid ≡ false
    → Absent m.pktid s.queue
    → (s' : Session) × (round w (received (Packet.sub_ack m)) s
        ≡ ok (go s' (notified (sub_ack m) ∷ [])))
      × Tracks (with_id free m.pktid) s'
      × (s'.queue ≡ s.queue)
unfolding round on_packet
round-sub_ack w free s m h word used alone =
    give_back-Tracks free m.pktid s _ h.held (Queued-with free m.pktid s.queue alone h.queued) word
      used

unfoldable pub Took : (ℕ → Bool) → Session → Type 0
Took free s =
    (id : ℕ) × (p : PktIds) × (fresh s ≡ ok (id, p))
    × (free id ≡ true)
    × ((j : ℕ) → free j ≡ true → id ≤ j)
    × IsPktId id
    × Holds 65535 (without free id) p

pub IsPktId-of_free :
    (free : ℕ → Bool) (s : PktIds) (id : ℕ) → Holds 65535 free s → free id ≡ true → IsPktId id
IsPktId-of_free free s id h e =
    let (low, high) = has_bounds s.ranges 65535 1 id h.cells h.chain (h.shows id ∙ e) in
    (omega arith, omega arith)

pub fresh_cases :
    (free : ℕ → Bool) (s : Session) (i : ℕ) (r : Run (Option ℕ × PktIds))
    → Holds 65535 free s.pktids
    → free i ≡ true
    → i ≢ 65535
    → next_id s.pktids ≡ r
    → Answers 65535 free r
    → Took free s
unfolding fresh Took
fresh_cases free s i (ok (some id, p)) held e ne run (handed_out out least h) =
    (id, p, rw run refl, out, least, IsPktId-of_free free s.pktids id held out, h)
fresh_cases free s i (ok (none, p)) held e ne run (used_up none_left h) =
    absurd (cc (none_left i, e))
fresh_cases free s i (err x) held e ne run _ = elim x [ ]
fresh_cases free s i out_of_fuel held e ne run x = elim x [ ]
fresh_cases free s i panic held e ne run (overflowed last) = absurd (ne (last i e))

-- The command to publish at QoS 1, while an identifier below 65535 is free and the socket takes what is
-- written: the smallest free identifier is taken, the packet with it is put at the end of the queue,
-- and its encoding is written.
pub round-publish_queued :
    (free : ℕ → Bool) (s : Session) (i : ℕ) (topic : Bytes) (payload : Payload) (ps : List Property)
    (retain : Bool)
    → Tracks free s
    → free i ≡ true
    → i ≢ 65535
    → (id : ℕ) × (s' : Session) × (enc : Bytes) × (round none
          (commanded (Command.publish topic payload ps at_least_once retain))
          s
        ≡ ok (go s' (wrote enc ∷ [])))
      × (free id ≡ true)
      × ((j : ℕ) → free j ≡ true → id ≤ j)
      × Tracks (without free id) s'
      × (s'.queue ≡ s.queue ++ ((id, new_at_least_once topic payload retain ps id) ∷ []))
      × (packet_to_mqtt (Packet.publish (new_at_least_once topic payload retain ps id)) ≡ ok enc)
unfolding round on_command on_publish_command Took send packet_to_mqtt publish_to_mqtt
    new_at_least_once new
round-publish_queued free s i topic payload ps retain h e ne =
    let (id, p, took, out, least, word, held) =
      fresh_cases free s i _ h.held e ne refl (next_id-Answers 65535 free s.pktids h.held) in
    let pkt = new_at_least_once topic payload retain ps id in
    (
      id,
      record s { pktids = p; queue = s.queue ++ ((id, pkt) ∷ []) },
      _,
      rw took refl,
      out,
      least,
      record { held = held; queued = Queued-append free id pkt s.queue out word h.queued },
      refl,
      refl,
    )

encoded_by :
    (m : Outcome IoError Bytes) (enc left : Bytes)
    → (m >>= λ bytes. ok ([] ++ bytes)) ≡ ok enc
    → m ≡ ok left
    → enc ≡ left
encoded_by (ok bytes) enc left e q = cc (e, q)
encoded_by (err x) enc left e q = cc e
encoded_by panic enc left e q = cc e
encoded_by out_of_fuel enc left e q = cc e

-- Into an empty buffer `encode` puts just the encoding.
encode-same :
    (pkt : Packet) (enc left : Bytes)
    → encode pkt [] ≡ ok enc
    → packet_to_mqtt pkt ≡ ok left
    → enc ≡ left
unfolding encode
encode-same pkt enc left e q = encoded_by (packet_to_mqtt pkt) enc left e q

-- The command to publish at QoS 1 a packet with the properties of `IsPublish` under every identifier,
-- while an identifier below 65535 is free and the socket takes what is written: the smallest free
-- identifier is taken; the packet with it is put at the end of the queue, which stays consistent; and
-- one buffer is written, from which `decode` answers that packet, whatever follows.
pub round-publish_command :
    (free : ℕ → Bool) (s : Session) (i : ℕ) (topic : Bytes) (payload : Payload) (ps : List Property)
    (retain : Bool)
    → Tracks free s
    → free i ≡ true
    → i ≢ 65535
    → ((id : ℕ) → IsPktId id → IsPublish (new_at_least_once topic payload retain ps id))
    → (id : ℕ) × (s' : Session) × (enc : Bytes) × (round none
          (commanded (Command.publish topic payload ps at_least_once retain))
          s
        ≡ ok (go s' (wrote enc ∷ [])))
      × (free id ≡ true)
      × ((j : ℕ) → free j ≡ true → id ≤ j)
      × Tracks (without free id) s'
      × (s'.queue ≡ s.queue ++ ((id, new_at_least_once topic payload retain ps id) ∷ []))
      × ((rest : Bytes)
          → decode (enc ++ rest)
            ≡ (ok (some (Packet.publish (new_at_least_once topic payload retain ps id))), rest))
round-publish_command free s i topic payload ps retain h e ne fit =
    let (id, s', enc, ran, out, least, tracks, queue, encoded) =
      round-publish_queued free s i topic payload ps retain h e ne in
    let pkt = new_at_least_once topic payload retain ps id in
    let (bytes, into, read) =
      decode-encode pkt [] (fit id (IsPktId-of_free free s.pktids id h.held out)) in
    let same : bytes ≡ enc = encode-same (Packet.publish pkt) bytes enc into encoded in
    (id, s', enc, ran, out, least, tracks, queue, rw same at read)

-- Before the first round the invariant holds, with every identifier from 1 to 65535 free.
pub session_new-Tracks : Tracks (up_to 65535) session_new
unfolding session_new PktIds.new
session_new-Tracks = record {
  held = new_with_max-Holds 65535 (omega arith) (omega arith);
  queued = tt;
}
