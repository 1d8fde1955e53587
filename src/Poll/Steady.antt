-- ===== src/Poll/Steady.antt =====
-- src/lib.rs, `poll`: packets at QoS 1 that are acknowledged one after the other, as many as there are.
use ruq.Base.{ℕ, ◌≡◌, ◌≢◌, refl, sym, ◌∙◌, ap, subst, Bool, none, List, [], ◌∷◌, All, arith}
use ruq.Protocol.Qos.{at_least_once}
use ruq.Protocol.Ack.Puback.{Puback}
use ruq.Protocol.Packet.{Packet}
use ruq.Client.{Command}
use ruq.EventLoop.{Session, Output, wrote, received, commanded}
use ruq.EventLoop.InFlight.{Tracks}
use ruq.EventLoop.Spec.{Least, Encodes}
use ruq.EventLoop.Exchange.{round-publish_command_acked}
use ruq.Poll.{running, Events, after, rounds}
use ruq.Poll.Rounds.{Written, goes_on}
use ruq.Poll.Burst.{Message, packet_of}

-- Each message with the acknowledgement that follows it.
abbrev pub acked : List (Message × Puback) → Events
acked [] = []
acked ((m, a) ∷ xs) =
    (none, commanded (Command.publish m.topic m.payload m.properties at_least_once m.retain))
    ∷ (none, received (Packet.pub_ack a))
    ∷ acked xs

-- The acknowledgement is for the identifier.
abbrev pub IsAcked : ℕ → Message × Puback → Type 0
IsAcked id (m, a) = a.pktid ≡ id

-- The packets that are written, all under the identifier.
abbrev pub packets_under : ℕ → List (Message × Puback) → List Packet
packets_under id [] = []
packets_under id ((m, a) ∷ xs) = Packet.publish (packet_of m id) ∷ packets_under id xs

Least-unique : (free : ℕ → Bool) (id l : ℕ) → Least free id → Least free l → l ≡ id
Least-unique free id l h k = omega (arith, h.least l k.out, k.least id h.out)

-- In a state with the identifier `l` the smallest free one, below 65535: any number of messages, each
-- acknowledged under `l` before the next command. With a socket that takes what is written, the
-- encodings of the packets under `l` are written in their order, and nothing else; the loop goes on,
-- and in the end the same identifiers are free and the queue is the same as before.
pub rounds-acked :
    (free : ℕ → Bool) (s : Session) (l : ℕ) (xs : List (Message × Puback))
    → Tracks free s
    → Least free l
    → l ≢ 65535
    → All (IsAcked l) xs
    → (s' : Session) × (out : List Output) × (rounds (acked xs) s ≡ (out, running s'))
      × Written (packets_under l xs) out
      × Tracks free s'
      × (s'.queue ≡ s.queue)
unfolding rounds
rounds-acked free s l [] h least ne fits = (s, [], refl, tt, h, refl)
rounds-acked free s l ((m, a) ∷ xs) h least ne (same, fits) =
    let (id, given, enc, ran, taken, _, encoded, answer) =
      round-publish_command_acked free s l m.topic m.payload m.properties m.retain h least.out ne in
    let under = Least-unique free id l taken least in
    let (kept, answered, tracks, queue) = answer a (same ∙ under) in
    let (last, out, runs, written, tracks', queue') =
      rounds-acked free kept l xs tracks least ne fits in
    (
      last,
      wrote enc ∷ out,
      goes_on none _ ((none, received (Packet.pub_ack a)) ∷ acked xs) s given (wrote enc ∷ []) ran
          ∙ ap (after (wrote enc ∷ []))
              (goes_on none _ (acked xs) given kept [] answered ∙ ap (after []) runs),
      (subst (λ k. Encodes (Packet.publish (packet_of m k)) enc) (sym under) encoded, written),
      tracks',
      queue' ∙ queue,
    )
