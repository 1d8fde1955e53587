-- ===== src/Example/Load.antt =====
-- The main task of examples/1.rs, and the event loop of src/lib.rs on the commands that it sends.
use ruq.Base.{
  ℕ, zero, suc, ◌+◌, ◌≤◌, ◌≡◌, refl, sym, ◌∙◌, ap, subst, Bool, false, Option, none, some, List, [],
  ◌∷◌, ◌++◌, length, arith, ok,
}
use ruq.Protocol.{Bytes}
use ruq.Protocol.Qos.{at_most_once, at_least_once, exactly_once}
use ruq.Protocol.Publish.{Publish, new, new_at_most_once, new_at_least_once, new_exactly_once}
use ruq.Protocol.Packet.{Packet, packet_to_mqtt}
use ruq.Protocol.Disconnect.{disconnect_new}
use ruq.Protocol.Requests.{subscribe_new, subscribe_to_mqtt, unsubscribe_new}
use ruq.PktIds.Next.{without, next_id-Answers}
use ruq.PktIds.Start.{up_to}
use ruq.Client.{Command, from_str, set_qos, with_property, build}
use ruq.Client.Calls.{subscribing, commands, accepted}
use ruq.EventLoop.{Session, Output, wrote, commanded, go, round, send, session_new}
use ruq.EventLoop.InFlight.{Tracks, Took, fresh_cases, session_new-Tracks}
use ruq.EventLoop.Spec.{Encodes}
use ruq.Poll.{running, Events, after, rounds}
use ruq.Poll.Rounds.{Written, goes_on}
use ruq.Poll.Burst.{Message, packet_of, packets, numbered, burst, Above, Above-without, Sent-of}
use ruq.Example.{topic, msg, publishes, main_calls}

-- The commands as events of the loop, whose writes the socket takes.
abbrev pub commanding : List Command → Events
commanding [] = []
commanding (c ∷ cs) = (none, commanded c) ∷ commanding cs

-- What `msg` carries, `n` times.
abbrev pub message_sent : Message
message_sent = record {
  topic = msg.topic;
  payload = msg.payload;
  properties = msg.properties;
  retain = false;
}

abbrev pub copies : ℕ → List Message
copies zero = []
copies (suc n) = message_sent ∷ copies n

-- The packets that the commands ask for, with the identifiers from `id` on where they take one.
abbrev pub demanded : ℕ → List Command → List Packet
demanded id [] = []
demanded id (Command.subscribe topic qos ∷ cs) =
    Packet.subscribe (subscribe_new topic id qos) ∷ demanded (id + 1) cs
demanded id (Command.unsubscribe topics ∷ cs) =
    Packet.unsubscribe (unsubscribe_new topics id) ∷ demanded (id + 1) cs
demanded id (Command.publish topic payload ps at_most_once retain ∷ cs) =
    Packet.publish (new_at_most_once topic payload retain ps) ∷ demanded id cs
demanded id (Command.publish topic payload ps at_least_once retain ∷ cs) =
    Packet.publish (new_at_least_once topic payload retain ps id) ∷ demanded (id + 1) cs
demanded id (Command.publish topic payload ps exactly_once retain ∷ cs) =
    Packet.publish (new_exactly_once topic payload retain ps id) ∷ demanded (id + 1) cs
demanded id (Command.disconnect ∷ cs) = Packet.disconnect disconnect_new ∷ demanded id cs

-- Those at QoS 1 among them, which wait for an acknowledgement.
abbrev pub awaited : List Packet → List (ℕ × Publish)
awaited [] = []
awaited (Packet.publish p ∷ ps) = elim p.pktid [
  | none ↦ awaited ps
  | some id ↦ (id, p) ∷ awaited ps
]
awaited (_ ∷ ps) = awaited ps

awaited-packets : (id n : ℕ) → awaited (packets id (copies n)) ≡ numbered id (copies n)
unfolding new_at_least_once new
awaited-packets id zero = refl
awaited-packets id (suc n) =
    ap (λ q. (id, packet_of message_sent id) ∷ q) (awaited-packets (id + 1) n)

-- Of the messages some are accepted.
record Copied (n : ℕ) (cs : List Command) : Type 0 where
  count : ℕ
  at_most : count ≤ n
  same : commanding cs ≡ burst (copies count)
  asks : (id : ℕ) → demanded id cs ≡ packets id (copies count)

Copied-of :
    {R : Type 0} (n : ℕ) (answers : List (Option R)) → Copied n (accepted (publishes n) answers)
unfolding publishes accepted commands build from_str set_qos with_property
Copied-of zero answers = record { count = 0; at_most = omega arith; same = refl; asks = λ id. refl }
Copied-of (suc n) [] = record { count = 0; at_most = omega arith; same = refl; asks = λ id. refl }
Copied-of (suc n) (none ∷ answers) =
    let k = Copied-of n answers in
    record {
      count = suc k.count;
      at_most = omega (arith, k.at_most);
      same = ap (λ es. (none, commanded (build msg)) ∷ es) k.same;
      asks = λ id. ap (λ ps. Packet.publish (packet_of message_sent id) ∷ ps) (k.asks (id + 1));
    }
Copied-of (suc n) (some e ∷ answers) =
    let k = Copied-of n answers in
    record { count = k.count; at_most = omega (arith, k.at_most); same = k.same; asks = k.asks }

length-copies : (n : ℕ) → length (copies n) ≡ n
length-copies zero = refl
length-copies (suc n) = ap suc (length-copies n)

-- The subscription takes the identifier 1.
record Subscribed : Type 0 where
  session : Session
  enc : Bytes
  ran :
      round none (commanded (Command.subscribe topic at_least_once)) session_new
      ≡ ok (go session (wrote enc ∷ []))
  free : ℕ → Bool
  tracks : Tracks free session
  above : Above 1 free
  encoded : Encodes (Packet.subscribe (subscribe_new topic 1 at_least_once)) enc
  queue : session.queue ≡ []

subscription : Subscribed
unfolding round Took send packet_to_mqtt session_new
subscription =
    let start = session_new-Tracks in
    let (id, p, took, out, least, word, held) =
      fresh_cases (up_to 65535) session_new 1 _ start.held refl (λ e. omega arith) refl
        (next_id-Answers 65535 (up_to 65535) session_new.pktids start.held) in
    let (same, above) = Above-without 0 id (up_to 65535) (omega arith) (λ j. refl) out least in
    record {
      session = record session_new { pktids = p };
      enc = subscribe_to_mqtt (subscribe_new topic id at_least_once);
      ran = rw took refl;
      free = without (up_to 65535) id;
      tracks = record { held = held; queued = tt };
      above = above;
      encoded =
          subst
            (λ k.
              Encodes (Packet.subscribe (subscribe_new topic k at_least_once))
                (subscribe_to_mqtt (subscribe_new topic id at_least_once)))
            same refl;
      queue = refl;
    }

-- What the commands come to, after the subscription or without it.
Goes : List Command → Type 0
Goes cs =
    (s : Session) × (out : List Output) × (rounds (commanding cs) session_new ≡ (out, running s))
    × Written (demanded 1 cs) out
    × (s.queue ≡ awaited (demanded 1 cs))

without_topic : (n : ℕ) (cs : List Command) → n ≤ 65534 → Copied n cs → Goes cs
unfolding Goes session_new
without_topic n cs le k =
    let sent =
      Sent-of 0 (copies k.count) (up_to 65535) session_new (omega arith) session_new-Tracks
        (λ j. refl) in
    let (s, out, runs, written, queue) =
      sent.room (omega (arith, length-copies k.count, k.at_most)) in
    (
      s,
      out,
      ap (λ es. rounds es session_new) k.same ∙ runs,
      rw (k.asks 1) written,
      rw (k.asks 1) (queue ∙ sym (awaited-packets 1 k.count)),
    )

with_topic :
    (n : ℕ) (cs : List Command)
    → n ≤ 65533
    → Copied n cs
    → Goes (Command.subscribe topic at_least_once ∷ cs)
unfolding Goes
with_topic n cs le k =
    let start = subscription in
    let sent =
      Sent-of 1 (copies k.count) start.free start.session (omega arith) start.tracks start.above in
    let (s, out, runs, written, queue) =
      sent.room (omega (arith, length-copies k.count, k.at_most)) in
    (
      s,
      wrote start.enc ∷ out,
      goes_on none _ (commanding cs) session_new start.session (wrote start.enc ∷ []) start.ran
          ∙ ap (after (wrote start.enc ∷ [])) (ap (λ es. rounds es start.session) k.same ∙ runs),
      (start.encoded, rw (k.asks 2) written),
      rw (k.asks 2) (
          queue
          ∙ (ap (λ q. q ++ numbered 2 (copies k.count)) start.queue
              ∙ sym (awaited-packets 2 k.count))),
    )

all_calls : main_calls ≡ subscribing topic at_least_once ∷ publishes 305
unfolding main_calls publishes
all_calls = refl

task-Goes :
    {R : Type 0} (answers : List (Option R))
    → Goes (accepted (subscribing topic at_least_once ∷ publishes 305) answers)
unfolding accepted commands Goes rounds session_new
task-Goes [] = (session_new, [], refl, tt, refl)
task-Goes (none ∷ answers) = with_topic 305 _ (omega arith) (Copied-of 305 answers)
task-Goes (some e ∷ answers) = without_topic 305 _ (omega arith) (Copied-of 305 answers)

-- Whatever the command channel answers to the calls of the main task: from its start and with a socket
-- that takes what is written, the loop goes through the commands of the accepted calls, one round each,
-- and writes the encoding of just the packet that each asks for, under the identifiers from 1 on. It
-- goes on after them, although nothing is acknowledged, with the messages in the queue.
pub rounds-main_calls :
    {R : Type 0} (answers : List (Option R))
    → (s : Session) × (out : List Output) × (rounds
          (commanding (accepted main_calls answers))
          session_new
        ≡ (out, running s))
      × Written (demanded 1 (accepted main_calls answers)) out
      × (s.queue ≡ awaited (demanded 1 (accepted main_calls answers)))
unfolding Goes
rounds-main_calls answers = rw all_calls (task-Goes answers)
