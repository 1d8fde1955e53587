-- ===== src/Tests/Programs.antt =====
-- examples/1.rs: a message, and the UNSUBACK that ends the program.
use ruq.Base.{Option, some, ℕ, ◌≡◌, refl, false, none, [], ◌∷◌, arith, ok, List}
use ruq.Protocol.{Bytes}
use ruq.Protocol.Qos.{at_most_once}
use ruq.Protocol.Publish.{Publish, bytes}
use ruq.Protocol.Ack.Unsuback.{Unsuback}
use ruq.Protocol.Reason.Unsuback.{success}
use ruq.Protocol.Disconnect.{disconnect_new}
use ruq.Protocol.Requests.{unsubscribe_new}
use ruq.Protocol.Packet.{Packet}
use ruq.PktIds.Start.{up_to}
use ruq.Client.Calls.{disconnecting, accepted}
use ruq.Poll.{running, rounds}
use ruq.EventLoop.{
  Session, Output, wrote, notified, Notification, message, unsub_ack, received, session_new,
}
use ruq.EventLoop.InFlight.{session_new-Tracks}
use ruq.Example.{receive, main_calls, topic}
use ruq.EventLoop.Spec.{Least, Encodes}
use ruq.Poll.Rounds.{Written}
use ruq.Example.Load.{commanding, demanded, awaited, rounds-main_calls}
use ruq.Example.Shutdown.{Among, MessageAcked, receive-disconnecting}
use ruq.Example.Run.{arrives, takes, run, run-disconnects}

abbrev hello : Publish
hello = record {
  topic = b'a' ∷ [];
  payload = bytes [];
  properties = [];
  flags = record { dup = false; qos = at_most_once; retain = false };
  pktid = none;
}

abbrev acked : Unsuback
acked = record { properties = []; pktid = 1; reason = success }

abbrev some_notifications : List Notification
some_notifications = unsub_ack acked ∷ message (Packet.publish hello) ∷ unsub_ack acked ∷ []

receive-disconnecting_example :
    (MessageAcked some_notifications → Among disconnecting (receive some_notifications false))
    × (Among disconnecting (receive some_notifications false) → MessageAcked some_notifications)
receive-disconnecting_example = receive-disconnecting some_notifications

run-disconnects_example :
    (id : ℕ) × Least (up_to 65535) id
    × (asks : Bytes) × Encodes (Packet.unsubscribe (unsubscribe_new (topic ∷ []) id)) asks
    × (bye : Bytes) × Encodes (Packet.disconnect disconnect_new) bye
    × ((a : Unsuback)
        → a.pktid ≡ id
        → run
            (arrives (received (Packet.publish hello))
              ∷ takes
              ∷ arrives (received (Packet.unsub_ack a))
              ∷ takes
              ∷ [])
            (record { session = session_new; disc = false; channel = [] })
          ≡ ok (
            notified (message (Packet.publish hello))
                ∷ wrote asks
                ∷ notified (unsub_ack a)
                ∷ wrote bye
                ∷ [],
            none,
          ))
run-disconnects_example =
    run-disconnects (up_to 65535) session_new 1 false hello session_new-Tracks refl
      (λ e. omega arith) refl

-- The subscription and the second message are accepted, and then the channel is full.
abbrev some_answers : List (Option ℕ)
some_answers = none ∷ some 100 ∷ none ∷ some 100 ∷ []

rounds-main_calls_example :
    (s : Session) × (out : List Output) × (rounds
        (commanding (accepted main_calls some_answers))
        session_new
      ≡ (out, running s))
    × Written (demanded 1 (accepted main_calls some_answers)) out
    × (s.queue ≡ awaited (demanded 1 (accepted main_calls some_answers)))
rounds-main_calls_example = rounds-main_calls some_answers
