-- ===== src/Example.antt =====
-- examples/1.rs: a program with two tasks on one client. The main task subscribes and publishes; the
-- other one reads the notifications, unsubscribes after a message and then disconnects.
pub mod Shutdown
pub mod Run
pub mod Load
use ruq.Base.{ℕ, zero, suc, Bool, true, false, List, [], ◌∷◌, ◌++◌, if◌then◌else◌}
use ruq.Protocol.{Bytes}
use ruq.Protocol.Qos.{at_least_once}
use ruq.Protocol.Property.{user_property}
use ruq.Client.{PublishBuilder, from_str, set_qos, with_property}
use ruq.Client.Calls.{Call, subscribing, publishing, unsubscribing, disconnecting}
use ruq.EventLoop.{Notification, message, unsub_ack}

-- `TOPIC`.
abbrev pub topic : Bytes
topic = b't' ∷ b'o' ∷ b'p' ∷ b'i' ∷ b'c' ∷ b'/' ∷ b't' ∷ b'e' ∷ b's' ∷ b't' ∷ []

abbrev pub msg : PublishBuilder
msg =
    with_property
      (user_property
        (b'l' ∷ b'o' ∷ b'c' ∷ b'a' ∷ b'l' ∷ b'_' ∷ b'i' ∷ b'n' ∷ b'i' ∷ b't' ∷ b'i' ∷ b'a' ∷ b'l'
          ∷ b'_' ∷ b't' ∷ b'i' ∷ b'm' ∷ b'e' ∷ b'd' ∷ b'i' ∷ b'f' ∷ b'f' ∷ [])
        (b'0' ∷ []))
      (with_property
        (user_property (b'm' ∷ b'e' ∷ b't' ∷ b'h' ∷ b'o' ∷ b'd' ∷ [])
          (b'f' ∷ b'o' ∷ b'o' ∷ b'b' ∷ b'a' ∷ b'r' ∷ b'2' ∷ []))
        (with_property
          (user_property (b't' ∷ b'y' ∷ b'p' ∷ b'e' ∷ []) (b'e' ∷ b'v' ∷ b'e' ∷ b'n' ∷ b't' ∷ []))
          (set_qos at_least_once (
            from_str
              (b't' ∷ b'o' ∷ b'p' ∷ b'i' ∷ b'c' ∷ b'/' ∷ b't' ∷ b'e' ∷ b's' ∷ b't' ∷ b'2' ∷ [])
              (b'{' ∷ b'"' ∷ b'm' ∷ b'e' ∷ b's' ∷ b's' ∷ b'a' ∷ b'g' ∷ b'e' ∷ b'"' ∷ b':' ∷ b' '
                ∷ b'"' ∷ b'h' ∷ b'e' ∷ b'l' ∷ b'l' ∷ b'o' ∷ b' ' ∷ b'f' ∷ b'r' ∷ b'o' ∷ b'm' ∷ b' '
                ∷ b'1' ∷ b'.' ∷ b'r' ∷ b's' ∷ b'"' ∷ b'}' ∷ [])))))

-- `for _ in 0..n { client.publish(msg.clone()); }`.
pub publishes : ℕ → List Call
publishes zero = []
publishes (suc n) = publishing msg ∷ publishes n

-- The calls of the main task, whatever they answer: the subscription, and then the messages.
unfoldable pub main_calls : List Call
unfolding publishes
main_calls = subscribing topic at_least_once ∷ (publishes 300 ++ publishes 5)

-- One notification in the other task: `disc` afterwards, and the calls.
unfoldable pub on_notification : Notification → Bool → Bool × List Call
on_notification (message m) disc = (true, unsubscribing topic ∷ [])
on_notification (unsub_ack m) disc = (disc, if disc then disconnecting ∷ [] else [])
on_notification _ disc = (disc, [])

-- `while let Some(x) = receiver.next().await`, from `disc` on.
unfoldable pub receive : List Notification → Bool → List Call
receive [] disc = []
receive (x ∷ xs) disc = let (disc', calls) = on_notification x disc in calls ++ receive xs disc'
