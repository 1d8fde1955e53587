-- ===== src/Poll/Burst.antt =====
-- src/lib.rs, `poll`: how many packets at QoS 1 the client can send before an answer comes.
use ruq.Base.{
  ℕ, ◌+◌, ◌≤◌, ◌<◌, ◌≡◌, refl, sym, ◌∙◌, ap, subst, Bool, true, ◌&&◌, none, List, [], ◌∷◌, ◌++◌,
  length, leb, arith, append_assoc, append-nil, panic,
}
use ruq.Protocol.{Bytes}
use ruq.Protocol.Qos.{at_least_once}
use ruq.Protocol.Property.{Property}
use ruq.Protocol.Publish.{Payload, Publish, new_at_least_once}
use ruq.Protocol.Packet.{Packet}
use ruq.EventLoop.Spec.{Encodes}
use ruq.PktIds.Next.{without}
use ruq.PktIds.Overflow.{next_id_overflows}
use ruq.PktIds.Start.{up_to}
use ruq.Client.{Command}
use ruq.EventLoop.{Session, Output, wrote, commanded, round, session_new}
use ruq.EventLoop.InFlight.{Tracks, round-publish_queued, session_new-Tracks}
use native.Mathlib.Decide.{dec_lt}
use ruq.Poll.Rounds.{Written, goes_on, stops}
use ruq.Poll.{Run, running, panicked, Events, after, rounds}

-- What one command to publish carries.
pub record Message : Type 0 where
  pub topic : Bytes
  pub payload : Payload
  pub properties : List Property
  pub retain : Bool

-- The packet of the message under an identifier.
abbrev pub packet_of : Message → ℕ → Publish
packet_of m id = new_at_least_once m.topic m.payload m.retain m.properties id

-- The commands, one per round, and the socket takes what is written.
abbrev pub burst : List Message → Events
burst [] = []
burst (m ∷ ms) =
    (none, commanded (Command.publish m.topic m.payload m.properties at_least_once m.retain))
    ∷ burst ms

-- The queue that holds the packets under the identifiers from `id` on.
abbrev pub numbered : ℕ → List Message → List (ℕ × Publish)
numbered id [] = []
numbered id (m ∷ ms) = (id, packet_of m id) ∷ numbered (id + 1) ms

-- These packets, as they are written.
abbrev pub packets : ℕ → List Message → List Packet
packets id [] = []
packets id (m ∷ ms) = Packet.publish (packet_of m id) ∷ packets (id + 1) ms

-- Free are exactly the identifiers above `n`.
abbrev pub Above : ℕ → (ℕ → Bool) → Type 0
Above n free = (j : ℕ) → free j ≡ (leb (n + 1) j && leb j 65535)

pub Above-without :
    (n id : ℕ) (free : ℕ → Bool)
    → n < 65535
    → Above n free
    → free id ≡ true
    → ((j : ℕ) → free j ≡ true → id ≤ j)
    → (id ≡ n + 1) × Above (n + 1) (without free id)
Above-without n id free below above out least =
    let low : id ≤ n + 1 = least (n + 1) (ground (arith, above (n + 1))) in
    let same : id ≡ n + 1 = ground (arith, above id) in (same, λ j. ground (arith, above j))

-- No identifier but the last is left: the command panics.
last_panics :
    (free : ℕ → Bool) (s : Session) (m : Message)
    → Tracks free s
    → Above 65534 free
    → round none
        (commanded (Command.publish m.topic m.payload m.properties at_least_once m.retain))
        s
      ≡ panic
unfolding round
last_panics free s m h above =
    rw (next_id_overflows s.pktids free h.held (λ j e. ground (arith, above j))) refl

-- What `n + 1`, `n + 2` and so on packets come to, when `n` are out.
pub record Sent (n : ℕ) (ms : List Message) (s : Session) : Type 0 where
  pub room :
      n + length ms ≤ 65534
      → (s' : Session) × (out : List Output) × (rounds (burst ms) s ≡ (out, running s'))
        × Written (packets (n + 1) ms) out
        × (s'.queue ≡ s.queue ++ numbered (n + 1) ms)
  pub no_room : 65534 < n + length ms → (rounds (burst ms) s).1 ≡ panicked

-- The message is out under the next identifier.
record Next (n : ℕ) (m : Message) (ms : List Message) (s : Session) : Type 0 where
  free : ℕ → Bool
  session : Session
  enc : Bytes
  runs : rounds (burst (m ∷ ms)) s ≡ after (wrote enc ∷ []) (rounds (burst ms) session)
  tracks : Tracks free session
  above : Above (n + 1) free
  queue : session.queue ≡ s.queue ++ ((n + 1, packet_of m (n + 1)) ∷ [])
  encoded : Encodes (Packet.publish (packet_of m (n + 1))) enc

Next-of :
    (n : ℕ) (m : Message) (ms : List Message) (free : ℕ → Bool) (s : Session)
    → n < 65534
    → Tracks free s
    → Above n free
    → Next n m ms s
Next-of n m ms free s below h above =
    let (id, s', enc, ran, out, least, tracks, queue, encoded) =
      round-publish_queued free s (n + 1) m.topic m.payload m.properties m.retain h
        (ground (arith, above (n + 1))) (λ e. omega arith) in
    let (same, above') = Above-without n id free (omega arith) above out least in
    record {
      free = without free id;
      session = s';
      enc = enc;
      runs = goes_on none _ (burst ms) s s' (wrote enc ∷ []) ran;
      tracks = tracks;
      above = above';
      queue = subst (λ k. s'.queue ≡ s.queue ++ ((k, packet_of m k) ∷ [])) same queue;
      encoded = subst (λ k. Encodes (Packet.publish (packet_of m k)) enc) same encoded;
    }

pub Sent-of :
    (n : ℕ) (ms : List Message) (free : ℕ → Bool) (s : Session)
    → n ≤ 65534
    → Tracks free s
    → Above n free
    → Sent n ms s
unfolding rounds
Sent-of n [] free s le h above = record {
  room = λ _. (s, [], refl, tt, sym (append-nil s.queue));
  no_room = λ gt. absurd (omega arith);
}
Sent-of n (m ∷ ms) free s le h above = elim (dec_lt n 65534) [
  | no last ↦
      let n_last : n ≡ 65534 = omega arith in
      record {
        room = λ fewer. absurd (omega arith);
        no_room = λ _.
            stops none _ (burst ms) s
              (last_panics free s m h (subst (λ k. Above k free) n_last above));
      }
  | yes below ↦
      let k = Next-of n m ms free s below h above in
      let more = Sent-of (n + 1) ms k.free k.session (omega arith) k.tracks k.above in
      record {
        room = λ fewer.
            let (s', outs, runs, written, queue) = more.room (omega arith) in
            (
              s',
              wrote k.enc ∷ outs,
              k.runs ∙ ap (after (wrote k.enc ∷ [])) runs,
              (k.encoded, written),
              queue ∙ (ap (λ q. q ++ numbered (n + 1 + 1) ms) k.queue ∙ append_assoc s.queue _ _),
            );
        no_room = λ gt. ap (λ (r : Run). r.1) k.runs ∙ more.no_room (omega arith);
      }
]

-- From the start, with a socket that takes what is written, any messages at QoS 1: up to 65534 of them
-- are written one after the other, the encoding of each under the next identifier from 1 on, and wait
-- in the queue, and the loop goes on; with more than that, the event loop panics.
pub rounds-burst :
    (ms : List Message)
    → (length ms ≤ 65534
        → (s : Session) × (out : List Output) × (rounds (burst ms) session_new ≡ (out, running s))
          × Written (packets 1 ms) out
          × (s.queue ≡ numbered 1 ms))
      × (65534 < length ms → (rounds (burst ms) session_new).1 ≡ panicked)
unfolding session_new
rounds-burst ms =
    let k = Sent-of 0 ms (up_to 65535) session_new (omega arith) session_new-Tracks (λ j. refl) in
    (λ fewer. k.room (omega arith), λ more. k.no_room (omega arith))
