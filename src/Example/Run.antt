-- ===== src/Example/Run.antt =====
-- examples/1.rs with the event loop of src/lib.rs: the commands go into the channel of `Client`, which
-- has room for them, and the notifications to the second task.
use ruq.Base.{
  ℕ, ◌≡◌, refl, sym, subst, ◌≢◌, Bool, true, false, Option, none, some, List, [], ◌∷◌, ◌++◌,
  Outcome, ok, ◌>>=◌, arith,
}
use ruq.Protocol.{Bytes, IoError}
use ruq.Protocol.PktId.{IsPktId}
use ruq.Protocol.Qos.{at_most_once}
use ruq.Protocol.Publish.{Publish}
use ruq.Protocol.Ack.Unsuback.{Unsuback}
use ruq.Protocol.Disconnect.{disconnect_new, disconnect_to_mqtt}
use ruq.Protocol.Requests.{unsubscribe_new, unsubscribe_to_mqtt}
use ruq.Protocol.Packet.{Packet, packet_to_mqtt}
use ruq.PktIds.Next.{without, next_id-Answers}
use ruq.Client.{Command}
use ruq.Client.Calls.{Call, commands}
use ruq.EventLoop.{
  Session, Output, wrote, notified, message, unsub_ack, Event, received, commanded, Flow, go, done,
  round, send,
}
use ruq.EventLoop.Spec.{Least, Encodes}
use ruq.EventLoop.Queue.{Absent, Absent-out, Queued-with, Queued-without}
use ruq.EventLoop.InFlight.{Tracks, Took, fresh_cases, give_back-Tracks}
use ruq.Example.{on_notification, topic}

-- The loop, the variable `disc` of the second task, and the commands in the channel.
pub record System : Type 0 where
  pub session : Session
  pub disc : Bool
  pub channel : List Command

abbrev all_commands : List Call → List Command
all_commands [] = []
all_commands (c ∷ cs) = commands c ++ all_commands cs

-- What the second task makes of the notifications of a round: `disc` and new commands.
told : List Output → Bool → Bool × List Command
told [] disc = (disc, [])
told (wrote b ∷ outs) disc = told outs disc
told (notified n ∷ outs) disc =
    let (disc', calls) = on_notification n disc in
    let (disc'', more) = told outs disc' in (disc'', all_commands calls ++ more)

-- An event of the loop, or the command that the channel holds first.
pub data Move : Type 0 where
  arrives : Event → Move
  takes : Move

-- What a round puts out, and the system after it; `none` is the end of the loop.
abbrev after_round : List Command → Bool → Flow → List Output × Option System
after_round channel disc (done out) = (out, none)
after_round channel disc (go s out) =
    let (disc', new) = told out disc in
    (out, some (record { session = s; disc = disc'; channel = channel ++ new }))

move : Move → System → Outcome IoError (List Output × Option System)
move (arrives e) x = do f ← round none e x.session; ok (after_round x.channel x.disc f)
move takes x = elim x.channel [
  | [] ↦ ok ([], some x)
  | c ∷ cs ↦ (do f ← round none (commanded c) x.session; ok (after_round cs x.disc f))
]

-- Moves, one after the other, up to the end of the loop, with all that is put out.
unfoldable pub run : List Move → System → Outcome IoError (List Output × Option System)
unfolding move told
run [] x = ok ([], some x)
run (m ∷ ms) x = do
  (out, y) ← move m x
  elim y [ none ↦ ok (out, none) | some x' ↦ (do (outs, z) ← run ms x'; ok (out ++ outs, z)) ]

-- An incoming QoS 0 message is passed on, and nothing else happens.
passed_on :
    (s : Session) (m : Publish)
    → m.flags.qos ≡ at_most_once
    → round none (received (Packet.publish m)) s
      ≡ ok (go s (notified (message (Packet.publish m)) ∷ []))
unfolding round
passed_on s m h = rw h refl

-- The command to unsubscribe takes the smallest free identifier and writes the UNSUBSCRIBE packet; an
-- UNSUBACK with it is passed on.
unsubscribed :
    (free : ℕ → Bool) (s : Session) (i : ℕ) (topics : List Bytes)
    → Tracks free s
    → free i ≡ true
    → i ≢ 65535
    → (id : ℕ) × Least free id
      × (s' : Session) × (enc : Bytes) × Encodes
          (Packet.unsubscribe (unsubscribe_new topics id))
          enc
      × (round none (commanded (Command.unsubscribe topics)) s ≡ ok (go s' (wrote enc ∷ [])))
      × ((a : Unsuback)
          → a.pktid ≡ id
          → (s'' : Session) × (round none (received (Packet.unsub_ack a)) s'
              ≡ ok (go s'' (notified (unsub_ack a) ∷ []))))
unfolding round Took send packet_to_mqtt
unsubscribed free s i topics h e ne =
    let (id, p, took, out, least, word, held) =
      fresh_cases free s i _ h.held e ne refl (next_id-Answers 65535 free s.pktids h.held) in
    let s' : Session = record s { pktids = p } in
    let queued = Queued-without free id s.queue h.queued in
    (
      id,
      record { out = out; least = least },
      s',
      unsubscribe_to_mqtt (unsubscribe_new topics id),
      refl,
      rw took refl,
      λ a same.
          let used : without free id a.pktid ≡ false = rw same (ground arith) in
          let kept =
            Queued-with (without free id) a.pktid s.queue
              (subst (λ j. Absent j s.queue) (sym same) (Absent-out free id s.queue out h.queued))
              queued in
          let (s'', ran, tracks, queue) =
            give_back-Tracks (without free id) a.pktid s' (notified (unsub_ack a) ∷ []) held kept
              (subst IsPktId (sym same) word) used in
          (s'', ran),
    )

-- The bytes of the DISCONNECT packet that the client sends.
unfoldable goodbye : Bytes
goodbye = disconnect_to_mqtt disconnect_new

goodbye-Encodes : Encodes (Packet.disconnect disconnect_new) goodbye
unfolding packet_to_mqtt goodbye
goodbye-Encodes = refl

said_goodbye :
    (s : Session) → round none (commanded Command.disconnect) s ≡ ok (done (wrote goodbye ∷ []))
unfolding round send packet_to_mqtt goodbye
said_goodbye s = refl

-- With an identifier below 65535 free, nothing in the channel and a socket that takes what is
-- written: a QoS 0 message is passed on, the second task has an UNSUBSCRIBE for its topic written
-- under the smallest free identifier, and when an UNSUBACK for that comes it is passed on and a
-- DISCONNECT is written; nothing else is put out, and the event loop ends without an error.
pub run-disconnects :
    (free : ℕ → Bool) (s : Session) (i : ℕ) (disc : Bool) (m : Publish)
    → Tracks free s
    → free i ≡ true
    → i ≢ 65535
    → m.flags.qos ≡ at_most_once
    → (id : ℕ) × Least free id
      × (asks : Bytes) × Encodes (Packet.unsubscribe (unsubscribe_new (topic ∷ []) id)) asks
      × (bye : Bytes) × Encodes (Packet.disconnect disconnect_new) bye
      × ((a : Unsuback)
          → a.pktid ≡ id
          → run
              (arrives (received (Packet.publish m))
                ∷ takes
                ∷ arrives (received (Packet.unsub_ack a))
                ∷ takes
                ∷ [])
              (record { session = s; disc = disc; channel = [] })
            ≡ ok (
              notified (message (Packet.publish m))
                  ∷ wrote asks
                  ∷ notified (unsub_ack a)
                  ∷ wrote bye
                  ∷ [],
              none,
            ))
unfolding run on_notification commands
run-disconnects free s i disc m h e ne zero_qos =
    let (id, least, s', enc, says, left, acked) = unsubscribed free s i (topic ∷ []) h e ne in
    (
      id,
      least,
      enc,
      says,
      goodbye,
      goodbye-Encodes,
      λ a same.
          let (s'', ran) = acked a same in
          rw (passed_on s m zero_qos) (rw left (rw ran (rw (said_goodbye s'') refl))),
    )
