-- ===== src/Poll.antt =====
-- src/lib.rs, `poll` as a whole: CONNECT, the wait for CONNACK, and then one round after the other.
pub mod Spec
pub mod Refines
pub mod Rounds
pub mod Burst
pub mod Steady
use ruq.Base.{ℕ, Option, none, some, List, [], ◌∷◌, ◌++◌, Outcome, ok, err, panic, out_of_fuel}
use ruq.Protocol.{Bytes, IoError}
use ruq.Protocol.Packet
use ruq.Protocol.Packet.{Packet}
use ruq.EventLoop.{
  Session, Output, Event, Flow, go, done, Round, round, send, session_new, first_packet, on_first,
}

-- What `mqtt_read.next()` yields before the loop: a packet, an error, or the end of the stream.
pub data Incoming : Type 0 where
  got : Packet → Incoming
  failed_read : IoError → Incoming
  ended : Incoming

-- How far a call of `poll` has come when all that happened is used up: it waits for the first
-- packet, it goes round its loop, or it is over.
pub data Ending : Type 0 where
  waiting : Ending
  running : Session → Ending
  returned : Ending
  failed : IoError → Ending
  panicked : Ending
  unfinished : Ending

abbrev pub Run : Type 0
Run = List Output × Ending

-- An event, with the answer of the socket in its round.
abbrev pub Events : Type 0
Events = List (Option IoError × Event)

-- The client identifier in the source.
abbrev pub poll_client_id : Bytes
poll_client_id =
    b'w' ∷ b'h' ∷ b'a' ∷ b't' ∷ b'e' ∷ b'v' ∷ b'e' ∷ b'r' ∷ b'.' ∷ b'd' ∷ b'e' ∷ b'v' ∷ b'o' ∷ b'p'
    ∷ b's' ∷ b'.' ∷ b's' ∷ b'v' ∷ b'c' ∷ b'.' ∷ b'e' ∷ b'x' ∷ b'a' ∷ b'm' ∷ b'p' ∷ b'l' ∷ b'e'
    ∷ b'.' ∷ b'o' ∷ b'r' ∷ b'g' ∷ []

-- `loop { if let Some(pkt) = mqtt_read.next().await { break pkt?; } }`: the end of the stream is
-- asked for again.
unfoldable pub await_first : List Incoming → Option (Outcome IoError Packet)
await_first [] = none
await_first (ended ∷ incoming) = await_first incoming
await_first (failed_read e ∷ incoming) = some (err e)
await_first (got p ∷ incoming) = some (ok p)

-- The outputs so far stand in front of what follows.
abbrev pub after : List Output → Run → Run
after out (outs, end) = (out ++ outs, end)

-- `loop { tokio::select! … }`.
unfoldable pub rounds : Events → Session → Run
rounds [] s = ([], running s)
rounds ((w, e) ∷ events) s = elim (round w e s) [
  | ok (go s' out) ↦ after out (rounds events s')
  | ok (done out) ↦ (out, returned)
  | err x ↦ ([], failed x)
  | panic ↦ ([], panicked)
  | out_of_fuel ↦ ([], unfinished)
]

unfoldable pub accept : Events → Option (Outcome IoError Packet) → Run
unfolding rounds
accept events none = ([], waiting)
accept events (some (ok p)) = elim (on_first p) [
  | ok out ↦ after out (rounds events session_new)
  | err x ↦ ([], failed x)
  | panic ↦ ([], panicked)
  | out_of_fuel ↦ ([], unfinished)
]
accept events (some (err x)) = ([], failed x)
accept events (some panic) = ([], panicked)
accept events (some out_of_fuel) = ([], unfinished)

-- `poll`, up to where the given history ends; `w` is the answer of the socket to CONNECT.
unfoldable pub poll : Option IoError → List Incoming → Events → Run
unfolding await_first accept
poll w incoming events = elim (send w (Packet.connect (first_packet poll_client_id))) [
  | ok out ↦ after out (accept events (await_first incoming))
  | err x ↦ ([], failed x)
  | panic ↦ ([], panicked)
  | out_of_fuel ↦ ([], unfinished)
]
