-- ===== src/Example/Shutdown.antt =====
-- When the second task of examples/1.rs disconnects.
use ruq.Base.{true, false, List, [], ◌∷◌}
use ruq.Client.Calls.{Call, disconnecting}
use ruq.EventLoop.{Notification, message, unsub_ack, conn_ack, sub_ack}
use ruq.Example.{on_notification, receive}

-- The call stands among the calls.
pub data Among (c : Call) : List Call → Type 0 where
  first : {cs : List Call} → Among c (c ∷ cs)
  behind : {d : Call} {cs : List Call} → Among c cs → Among c (d ∷ cs)

-- An UNSUBACK comes; and a message comes, and an UNSUBACK after it.
pub data Acked : List Notification → Type 0 where
  acked_now : {a : _} {xs : List Notification} → Acked (unsub_ack a ∷ xs)
  acked_later : {x : Notification} {xs : List Notification} → Acked xs → Acked (x ∷ xs)

pub data MessageAcked : List Notification → Type 0 where
  message_now : {m : _} {xs : List Notification} → Acked xs → MessageAcked (message m ∷ xs)
  message_later :
      {x : Notification} {xs : List Notification} → MessageAcked xs → MessageAcked (x ∷ xs)

Acked-of : (xs : List Notification) → MessageAcked xs → Acked xs
Acked-of [] h = elim h [ ]
Acked-of (x ∷ xs) (message_now h) = acked_later h
Acked-of (x ∷ xs) (message_later h) = acked_later (Acked-of xs h)

after_message : (xs : List Notification) → Acked xs → Among disconnecting (receive xs true)
unfolding receive on_notification
after_message [] h = elim h [ ]
after_message (unsub_ack a ∷ xs) h = first
after_message (message m ∷ xs) (acked_later h) = behind (after_message xs h)
after_message (conn_ack m ∷ xs) (acked_later h) = after_message xs h
after_message (sub_ack m ∷ xs) (acked_later h) = after_message xs h

before_message : (xs : List Notification) → MessageAcked xs → Among disconnecting (receive xs false)
unfolding receive on_notification
before_message [] h = elim h [ ]
before_message (message m ∷ xs) (message_now h) = behind (after_message xs h)
before_message (message m ∷ xs) (message_later h) = behind (after_message xs (Acked-of xs h))
before_message (unsub_ack a ∷ xs) (message_later h) = before_message xs h
before_message (conn_ack m ∷ xs) (message_later h) = before_message xs h
before_message (sub_ack m ∷ xs) (message_later h) = before_message xs h

only_after : (xs : List Notification) → Among disconnecting (receive xs true) → Acked xs
unfolding receive on_notification
only_after [] h = elim h [ ]
only_after (unsub_ack a ∷ xs) h = acked_now
only_after (message m ∷ xs) (behind h) = acked_later (only_after xs h)
only_after (conn_ack m ∷ xs) h = acked_later (only_after xs h)
only_after (sub_ack m ∷ xs) h = acked_later (only_after xs h)

only_then : (xs : List Notification) → Among disconnecting (receive xs false) → MessageAcked xs
unfolding receive on_notification
only_then [] h = elim h [ ]
only_then (unsub_ack a ∷ xs) h = message_later (only_then xs h)
only_then (message m ∷ xs) (behind h) = message_now (only_after xs h)
only_then (conn_ack m ∷ xs) h = message_later (only_then xs h)
only_then (sub_ack m ∷ xs) h = message_later (only_then xs h)

-- Over any notifications the second task disconnects exactly when a message comes and an UNSUBACK
-- some time after it.
pub receive-disconnecting :
    (xs : List Notification)
    → (MessageAcked xs → Among disconnecting (receive xs false))
      × (Among disconnecting (receive xs false) → MessageAcked xs)
receive-disconnecting xs = (before_message xs, only_then xs)
