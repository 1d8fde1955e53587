-- ===== src/EventLoop/Keepalive.antt =====
-- src/lib.rs, `poll`: the ping timer over many rounds.
use ruq.Base.{
  ℕ, ◌≡◌, refl, ap, subst, ◌≢◌, Bool, true, false, Option, none, some, Outcome, ok, err, panic,
  out_of_fuel, ◌>>=◌, List, [], ◌∷◌, ◌++◌, All, if◌then◌else◌,
}
use ruq.Protocol.{Bytes, IoError, timed_out}
use ruq.Protocol.Qos.{QoS, at_most_once, at_least_once, exactly_once}
use ruq.Protocol.Property.{Property}
use ruq.Protocol.Publish.{Payload, Publish}
use ruq.Protocol.Ack.Puback.{puback_new}
use ruq.Protocol.Reason.Disconnect.{DisconnectReason, normal}
use ruq.Protocol.Packet.{Packet}
use ruq.PktIds.{return_id}
use ruq.Client.{Command}
use ruq.EventLoop.{
  Session, Output, Event, tick, received, read_failed, stream_done, commanded, commands_closed, go,
  Round, round, is_some_false, on_tick, send, on_packet, on_command, give_back, fresh, inside,
  on_publish, on_disconnect, on_publish_command, remove_first,
}

-- Rounds that the loop goes on after, with what they do to the outside.
pub data Rounds : Session → List Event → List Output → Session → Type 0 where
  stop : {s : Session} → Rounds s [] [] s
  next :
      {s s' s'' : Session} {e : Event} {es : List Event} {out outs : List Output}
      (w : Option IoError)
      → round w e s ≡ ok (go s' out)
      → Rounds s' es outs s''
      → Rounds s (e ∷ es) (out ++ outs) s''

-- The event is no PINGRESP.
abbrev pub Other : Event → Type 0
Other e = e ≢ received Packet.ping_resp

-- Where a round goes on, an answer to the ping is still owed.
abbrev Waits : Round → Type 0
Waits (ok (go s out)) = s.pingresp_received ≡ some false
Waits _ = Unit

Waits-bind :
    {A : Type 0} (m : Outcome IoError A) (f : A → Round) → ((a : A) → Waits (f a)) → Waits (m >>= f)
Waits-bind (ok a) f h = h a
Waits-bind (err e) f h = tt
Waits-bind panic f h = tt
Waits-bind out_of_fuel f h = tt

Waits-if : (b : Bool) (x y : Round) → Waits x → Waits y → Waits (if b then x else y)
Waits-if true x y h k = h
Waits-if false x y h k = k

tick-Waits : (w : Option IoError) (s : Session) → Waits (on_tick w s)
unfolding on_tick
tick-Waits w s =
    Waits-if (is_some_false s.pingresp_received) _ _ tt
      (Waits-bind (send w Packet.ping_req) _ (λ out. refl))

give_back-Waits :
    (id : ℕ) (s : Session) (out : List Output)
    → s.pingresp_received ≡ some false
    → Waits (give_back id s out)
unfolding give_back
give_back-Waits id s out h = Waits-bind (inside (return_id id s.pktids)) _ (λ p. h)

on_publish-Waits :
    (w : Option IoError) (s : Session) (m : Publish) (q : QoS) (o : Option ℕ)
    → s.pingresp_received ≡ some false
    → Waits (on_publish w s m q o)
unfolding on_publish
on_publish-Waits w s m at_most_once o h = h
on_publish-Waits w s m at_least_once none h = tt
on_publish-Waits w s m at_least_once (some id) h =
    Waits-bind (send w (Packet.pub_ack (puback_new id))) _ (λ out. h)
on_publish-Waits w s m exactly_once o h = tt

on_disconnect-Waits : (r : DisconnectReason) → Waits (on_disconnect r)
unfolding on_disconnect
on_disconnect-Waits normal = tt
on_disconnect-Waits _ = tt

packet-Waits :
    (w : Option IoError) (s : Session) (p : Packet)
    → p ≢ Packet.ping_resp
    → s.pingresp_received ≡ some false
    → Waits (on_packet w s p)
unfolding on_packet
packet-Waits w s (Packet.disconnect d) o h = on_disconnect-Waits d.reason
packet-Waits w s Packet.ping_resp o h = absurd (o refl)
packet-Waits w s (Packet.sub_ack m) o h = give_back-Waits m.pktid s _ h
packet-Waits w s (Packet.unsub_ack m) o h = give_back-Waits m.pktid s _ h
packet-Waits w s (Packet.pub_ack m) o h =
    give_back-Waits m.pktid (record s { queue = remove_first m.pktid s.queue }) [] h
packet-Waits w s (Packet.publish m) o h = on_publish-Waits w s m m.flags.qos m.pktid h
packet-Waits w s _ o h = h

publish_command-Waits :
    (w : Option IoError) (s : Session) (topic : Bytes) (payload : Payload) (ps : List Property)
    (q : QoS) (retain : Bool)
    → s.pingresp_received ≡ some false
    → Waits (on_publish_command w s topic payload ps q retain)
unfolding on_publish_command
publish_command-Waits w s topic payload ps at_most_once retain h =
    Waits-bind (send w _) _ (λ out. h)
publish_command-Waits w s topic payload ps at_least_once retain h =
    Waits-bind (fresh s) _ (λ a. Waits-bind (send w _) _ (λ out. h))
publish_command-Waits w s topic payload ps exactly_once retain h =
    Waits-bind (fresh s) _ (λ a. Waits-bind (send w _) _ (λ out. h))

command-Waits :
    (w : Option IoError) (s : Session) (c : Command)
    → s.pingresp_received ≡ some false
    → Waits (on_command w s c)
unfolding on_command
command-Waits w s (Command.publish topic payload ps qos retain) h =
    publish_command-Waits w s topic payload ps qos retain h
command-Waits w s (Command.subscribe topic qos) h =
    Waits-bind (fresh s) _ (λ a. Waits-bind (send w _) _ (λ out. h))
command-Waits w s (Command.unsubscribe topics) h =
    Waits-bind (fresh s) _ (λ a. Waits-bind (send w _) _ (λ out. h))
command-Waits w s Command.disconnect h = Waits-bind (send w _) _ (λ out. tt)

round-Waits :
    (w : Option IoError) (s : Session) (e : Event)
    → Other e
    → s.pingresp_received ≡ some false
    → Waits (round w e s)
unfolding round
round-Waits w s tick o h = tick-Waits w s
round-Waits w s (received x) o h = packet-Waits w s x (λ q. o (ap received q)) h
round-Waits w s (read_failed x) o h = tt
round-Waits w s stream_done o h = tt
round-Waits w s (commanded x) o h = command-Waits w s x h
round-Waits w s commands_closed o h = h

Rounds-wait :
    (s s' : Session) (es : List Event) (out : List Output)
    → Rounds s es out s'
    → All Other es
    → s.pingresp_received ≡ some false
    → s'.pingresp_received ≡ some false
Rounds-wait s s' [] out stop o h = h
Rounds-wait s s' (e ∷ es) out (next w r more) (o, os) h =
    Rounds-wait _ s' es _ more os (subst Waits r (round-Waits w s e o h))

-- If the loop has gone on after a tick of the ping timer and then any rounds without a PINGRESP, the
-- next tick ends it with the error `TimedOut`, and nothing is written.
pub Rounds-time_out :
    (s s' : Session) (es : List Event) (out : List Output) (w : Option IoError)
    → Rounds s (tick ∷ es) out s'
    → All Other es
    → round w tick s' ≡ err timed_out
unfolding round on_tick
Rounds-time_out s s' es out w (next w' r more) os =
    rw (Rounds-wait _ s' es _ more os (subst Waits r (tick-Waits w' s))) refl
