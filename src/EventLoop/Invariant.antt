-- ===== src/EventLoop/Invariant.antt =====
-- src/lib.rs, `poll`: the queue and the identifiers over many rounds.
use ruq.Base.{
  ℕ, ◌≡◌, refl, sym, subst, Bool, true, false, Option, none, some, Outcome, ok, err, panic,
  out_of_fuel, ◌>>=◌, List, [], if◌then◌else◌,
}
use ruq.Protocol.{Bytes, IoError}
use ruq.Protocol.PktId.{IsPktId}
use ruq.Protocol.Qos.{QoS, at_most_once, at_least_once, exactly_once}
use ruq.Protocol.Property.{Property}
use ruq.Protocol.Publish.{Payload, Publish}
use ruq.Protocol.Reason.Disconnect.{DisconnectReason, normal}
use ruq.Protocol.Packet.{Packet}
use ruq.PktIds.{PktIds, Run, next_id}
use ruq.PktIds.Chain.{Holds}
use ruq.PktIds.Next.{without, Answers, handed_out, used_up, overflowed, next_id-Answers}
use ruq.PktIds.Return.{with_id}
use ruq.PktIds.Start.{up_to}
use ruq.Client.{Command}
use ruq.EventLoop.{
  Session, Output, Event, tick, received, read_failed, stream_done, commanded, commands_closed, go,
  Round, round, is_some_false, on_tick, send, on_packet, on_command, give_back, fresh, on_publish,
  on_disconnect, on_publish_command, remove_first, session_new,
}
use ruq.EventLoop.Queue.{Absent, Queued, Queued-with, Queued-remove, Queued-append, Queued-without}
use ruq.EventLoop.InFlight.{Tracks, give_back-Tracks, IsPktId-of_free, session_new-Tracks}

-- The invariant, whatever identifiers are free.
abbrev pub Consistent : Session → Type 0
Consistent s = (free : ℕ → Bool) × Tracks free s

-- Where a round goes on, the state is consistent.
abbrev Keeps : Round → Type 0
Keeps (ok (go s out)) = Consistent s
Keeps _ = Unit

Keeps-bind :
    {A : Type 0} (m : Outcome IoError A) (f : A → Round)
    → ((a : A) → m ≡ ok a → Keeps (f a))
    → Keeps (m >>= f)
Keeps-bind (ok a) f h = h a refl
Keeps-bind (err e) f h = tt
Keeps-bind panic f h = tt
Keeps-bind out_of_fuel f h = tt

Keeps-if : (b : Bool) (x y : Round) → Keeps x → Keeps y → Keeps (if b then x else y)
Keeps-if true x y h k = h
Keeps-if false x y h k = k

-- An acknowledgement answers something: its identifier is in use, for SUBACK and UNSUBACK by no
-- queued packet.
abbrev pub InUse : (ℕ → Bool) → ℕ → Type 0
InUse free id = IsPktId id × (free id ≡ false)

unfoldable pub Answering : (ℕ → Bool) → Session → Event → Type 0
Answering free s (received (Packet.pub_ack m)) = InUse free m.pktid
Answering free s (received (Packet.sub_ack m)) = InUse free m.pktid × Absent m.pktid s.queue
Answering free s (received (Packet.unsub_ack m)) = InUse free m.pktid × Absent m.pktid s.queue
Answering free s _ = Unit

tick-Keeps : (w : Option IoError) (s : Session) → Consistent s → Keeps (on_tick w s)
unfolding on_tick
tick-Keeps w s (free, h) = Keeps-if (is_some_false s.pingresp_received) _ _ tt (
    Keeps-bind (send w Packet.ping_req) _
      (λ out _. (free, record { held = h.held; queued = h.queued })))

give_back-Keeps :
    (free : ℕ → Bool) (id : ℕ) (s : Session) (out : List Output)
    → Holds 65535 free s.pktids
    → Queued (with_id free id) s.queue
    → InUse free id
    → Keeps (give_back id s out)
give_back-Keeps free id s out h q (word, used) =
    let (s', e, tracks, _) = give_back-Tracks free id s out h q word used in
    subst Keeps (sym e) (with_id free id, tracks)

on_publish-Keeps :
    (w : Option IoError) (s : Session) (m : Publish) (q : QoS) (o : Option ℕ)
    → Consistent s
    → Keeps (on_publish w s m q o)
unfolding on_publish
on_publish-Keeps w s m at_most_once o h = h
on_publish-Keeps w s m at_least_once none h = tt
on_publish-Keeps w s m at_least_once (some id) h = Keeps-bind (send w _) _ (λ out _. h)
on_publish-Keeps w s m exactly_once o h = tt

on_disconnect-Keeps : (r : DisconnectReason) → Keeps (on_disconnect r)
unfolding on_disconnect
on_disconnect-Keeps normal = tt
on_disconnect-Keeps _ = tt

packet-Keeps :
    (w : Option IoError) (free : ℕ → Bool) (s : Session) (p : Packet)
    → Tracks free s
    → Answering free s (received p)
    → Keeps (on_packet w s p)
unfolding on_packet Answering
packet-Keeps w free s (Packet.disconnect d) h u = on_disconnect-Keeps d.reason
packet-Keeps w free s Packet.ping_resp h u = (free, record { held = h.held; queued = h.queued })
packet-Keeps w free s (Packet.sub_ack m) h (u, alone) =
    give_back-Keeps free m.pktid s _ h.held (Queued-with free m.pktid s.queue alone h.queued) u
packet-Keeps w free s (Packet.unsub_ack m) h (u, alone) =
    give_back-Keeps free m.pktid s _ h.held (Queued-with free m.pktid s.queue alone h.queued) u
packet-Keeps w free s (Packet.pub_ack m) h u =
    give_back-Keeps free m.pktid (record s { queue = remove_first m.pktid s.queue }) [] h.held
      (Queued-remove free m.pktid s.queue h.queued).1 u
packet-Keeps w free s (Packet.publish m) h u = on_publish-Keeps w s m m.flags.qos m.pktid (free, h)
packet-Keeps w free s _ h u = (free, h)

-- An identifier that was free, and the allocator without it.
Taken : (ℕ → Bool) → ℕ × PktIds → Type 0
Taken free (id, p) = (free id ≡ true) × IsPktId id × Holds 65535 (without free id) p

fresh-Taken :
    (free : ℕ → Bool) (s : Session) (a : ℕ × PktIds) (r : Run (Option ℕ × PktIds))
    → Holds 65535 free s.pktids
    → next_id s.pktids ≡ r
    → Answers 65535 free r
    → fresh s ≡ ok a
    → Taken free a
unfolding fresh Taken
fresh-Taken free s a (ok (some i, q)) held run (handed_out out least h) e =
    let same : (i, q) ≡ a = cc (rw run at e) in
    subst (Taken free) same (out, IsPktId-of_free free s.pktids i held out, h)
fresh-Taken free s a (ok (none, q)) held run (used_up none_left h) e = absurd (cc (rw run at e))
fresh-Taken free s a panic held run (overflowed last) e = absurd (cc (rw run at e))
fresh-Taken free s a (err x) held run _ e = elim x [ ]
fresh-Taken free s a out_of_fuel held run x e = elim x [ ]

Taken-Keeps :
    (free : ℕ → Bool) (s : Session) (f : ℕ × PktIds → Round)
    → Tracks free s
    → ((a : ℕ × PktIds) → Taken free a → Keeps (f a))
    → Keeps (fresh s >>= f)
Taken-Keeps free s f h k =
    Keeps-bind (fresh s) f (λ a e.
      k a (fresh-Taken free s a _ h.held refl (next_id-Answers 65535 free s.pktids h.held) e))

publish_command-Keeps :
    (w : Option IoError) (free : ℕ → Bool) (s : Session) (topic : Bytes) (payload : Payload)
    (ps : List Property) (q : QoS) (retain : Bool)
    → Tracks free s
    → Keeps (on_publish_command w s topic payload ps q retain)
unfolding on_publish_command Taken
publish_command-Keeps w free s topic payload ps at_most_once retain h =
    Keeps-bind (send w _) _ (λ out _. (free, h))
publish_command-Keeps w free s topic payload ps at_least_once retain h =
    Taken-Keeps free s _ h (λ a t. Keeps-bind (send w _) _ (λ out _. (
      without free a.0,
      record { held = t.2; queued = Queued-append free a.0 _ s.queue t.0 t.1 h.queued },
    )))
publish_command-Keeps w free s topic payload ps exactly_once retain h =
    Taken-Keeps free s _ h (λ a t. Keeps-bind (send w _) _ (λ out _.
      (without free a.0, record { held = t.2; queued = Queued-without free a.0 s.queue h.queued })))

command-Keeps :
    (w : Option IoError) (free : ℕ → Bool) (s : Session) (c : Command)
    → Tracks free s
    → Keeps (on_command w s c)
unfolding on_command Taken
command-Keeps w free s (Command.publish topic payload ps qos retain) h =
    publish_command-Keeps w free s topic payload ps qos retain h
command-Keeps w free s (Command.subscribe topic qos) h = Taken-Keeps free s _ h (λ a t.
    Keeps-bind (send w _) _ (λ out _.
      (without free a.0, record { held = t.2; queued = Queued-without free a.0 s.queue h.queued })))
command-Keeps w free s (Command.unsubscribe topics) h = Taken-Keeps free s _ h (λ a t.
    Keeps-bind (send w _) _ (λ out _.
      (without free a.0, record { held = t.2; queued = Queued-without free a.0 s.queue h.queued })))
command-Keeps w free s Command.disconnect h = Keeps-bind (send w _) _ (λ out _. tt)

round-Keeps :
    (w : Option IoError) (free : ℕ → Bool) (s : Session) (e : Event)
    → Tracks free s
    → Answering free s e
    → Keeps (round w e s)
unfolding round
round-Keeps w free s tick h u = tick-Keeps w s (free, h)
round-Keeps w free s (received x) h u = packet-Keeps w free s x h u
round-Keeps w free s (read_failed x) h u = tt
round-Keeps w free s stream_done h u = tt
round-Keeps w free s (commanded x) h u = command-Keeps w free s x h
round-Keeps w free s commands_closed h u = (free, h)

-- States that rounds lead to, where every acknowledgement that arrives answers something.
pub data Reachable : Session → Type 0 where
  at_start : Reachable session_new
  after_round :
      {s s' : Session} {out : List Output} (w : Option IoError) (e : Event)
      → Reachable s
      → ((free : ℕ → Bool) → Tracks free s → Answering free s e)
      → round w e s ≡ ok (go s' out)
      → Reachable s'

-- In every state that rounds lead to from the start, if each acknowledgement that arrived was for an
-- identifier in use, and each SUBACK or UNSUBACK for one of no queued packet: the allocator holds a
-- set of free identifiers, and the queued packets have identifiers outside it, no two the same.
pub Reachable-Consistent : (s : Session) → Reachable s → Consistent s
Reachable-Consistent s at_start = (up_to 65535, session_new-Tracks)
Reachable-Consistent s (after_round w e before answers run) =
    let (free, h) = Reachable-Consistent _ before in
    subst Keeps run (round-Keeps w free _ e h (answers free h))
