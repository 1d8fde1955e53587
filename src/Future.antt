-- ===== src/Future.antt =====
-- src/lib.rs, `EventLoop` as a future, and `Client::new` of src/client.rs that makes it. What the TCP
-- connect and the future of `poll` answer when they are polled is a parameter.
pub mod Direct
use ruq.Base.{
  ℕ, zero, suc, ◌≡◌, refl, Bool, true, false, Option, none, some, Outcome, ok, err, panic,
  out_of_fuel, List, [], ◌∷◌, ◌>>=◌, if◌then◌else◌,
}
use ruq.Protocol.{IoError}

-- `EventLoopState`, without the futures that it holds.
pub data State : Type 0 where
  not_connected mqtt_connected : State

-- `commands_rx` is `Some` or has been taken.
pub record EventLoop : Type 0 where
  pub state : State
  pub commands_rx : Bool

-- `Reason::Failed to connect` around the error of the connect, or the error of the connection.
pub data AnyError : Type 0 where
  failed_to_connect from_session : IoError → AnyError

-- `Poll`: `none` is `Pending`.
abbrev pub Poll : Type 0 → Type 0
Poll A = Option A

-- What the two futures answer in one call, if they are polled in it.
pub record Answers : Type 0 where
  pub connect : Poll (Outcome IoError (Unit {0}))
  pub session : Poll (Outcome IoError (Unit {0}))

abbrev pub Run : Type 0
Run = Outcome ⊥ (Poll (Outcome AnyError (Unit {0})) × EventLoop)

-- `f.poll(cx).map_err(|e| e.into())`; a panic of the inner future is one of the outer.
session_poll : Poll (Outcome IoError (Unit {0})) → EventLoop → Run
session_poll none l = ok (none, l)
session_poll (some (ok a)) l = ok (some (ok a), l)
session_poll (some (err e)) l = ok (some (err (from_session e)), l)
session_poll (some panic) l = panic
session_poll (some out_of_fuel) l = out_of_fuel

-- One round of the `loop`: it returns, or goes on with the next state, for which it takes the
-- receiver of the commands.
pub data Next : Type 0 where
  returns : Run → Next
  continues : EventLoop → Next

connect_poll : Poll (Outcome IoError (Unit {0})) → EventLoop → Next
connect_poll none l = returns (ok (none, l))
connect_poll (some (ok a)) l =
    if l.commands_rx
    then continues (record { state = mqtt_connected; commands_rx = false })
    else returns panic
connect_poll (some (err e)) l = returns (ok (some (err (failed_to_connect e)), l))
connect_poll (some panic) l = returns panic
connect_poll (some out_of_fuel) l = returns out_of_fuel

round_at : State → Answers → EventLoop → Next
round_at not_connected a l = connect_poll a.connect l
round_at mqtt_connected a l = returns (session_poll a.session l)

poll_loop : ℕ → Answers → EventLoop → Run
poll_loop zero a l = out_of_fuel
poll_loop (suc fuel) a l = elim (round_at l.state a l) [
  | returns r ↦ r
  | continues l' ↦ poll_loop fuel a l'
]

-- `<EventLoop as Future>::poll`: a connected loop returns in its next round, so two are enough.
unfoldable pub event_loop_poll : Answers → EventLoop → Run
unfolding poll_loop round_at connect_poll session_poll
event_loop_poll a l = poll_loop 2 a l

-- The event loop of `Client::new`.
unfoldable pub client_new : EventLoop
client_new = record { state = not_connected; commands_rx = true }
