-- ===== src/Future/Direct.antt =====
-- The future of src/lib.rs against a description without its loop.
use ruq.Base.{
  ◌≡◌, refl, ◌⊎◌, inl, inr, Bool, true, false, none, some, Outcome, ok, err, panic, out_of_fuel,
}
use ruq.Protocol.{IoError}
use ruq.Future.{
  State, not_connected, mqtt_connected, EventLoop, AnyError, failed_to_connect, from_session, Poll,
  Answers, session_poll, event_loop_poll,
}

-- The receiver is there as long as it is needed.
abbrev pub IsReady : EventLoop → Type 0
IsReady l = (l.state ≡ mqtt_connected) ⊎ (l.commands_rx ≡ true)

-- Neither future panics in the call.
abbrev pub Answered : Poll (Outcome IoError (Unit {0})) → Type 0
Answered (some panic) = ⊥
Answered (some out_of_fuel) = ⊥
Answered _ = Unit

-- Without the loop: a connected event loop answers what its connection does; one that is not
-- waits for the connect, and when that is done answers in the same call what the connection does.
unfoldable pub answer_of : Poll (Outcome IoError (Unit {0})) → Poll (Outcome AnyError (Unit {0}))
answer_of none = none
answer_of (some (err e)) = some (err (from_session e))
answer_of (some (ok a)) = some (ok a)
answer_of (some _) = none

abbrev connected : EventLoop
connected = record { state = mqtt_connected; commands_rx = false }

unfoldable pub direct : State → Answers → EventLoop → Poll (Outcome AnyError (Unit {0})) × EventLoop
unfolding answer_of
direct mqtt_connected a l = (answer_of a.session, l)
direct not_connected a l = elim a.connect [
  | none ↦ (none, l)
  | some (err e) ↦ (some (err (failed_to_connect e)), l)
  | some _ ↦ (answer_of a.session, connected)
]

session_direct :
    (p : Poll (Outcome IoError (Unit {0}))) (l : EventLoop)
    → Answered p
    → session_poll p l ≡ ok (answer_of p, l)
unfolding session_poll answer_of
session_direct none l h = refl
session_direct (some (ok a)) l h = refl
session_direct (some (err e)) l h = refl
session_direct (some panic) l h = elim h [ ]
session_direct (some out_of_fuel) l h = elim h [ ]

direct_parts :
    (p q : Poll (Outcome IoError (Unit {0}))) (st : State) (rx : Bool)
    → let a : Answers = record { connect = p; session = q } in
      let l : EventLoop = record { state = st; commands_rx = rx } in
      IsReady l
      → Answered p
      → Answered q
      → (event_loop_poll a l ≡ ok (direct st a l)) × IsReady (direct st a l).1
unfolding event_loop_poll direct
direct_parts p q mqtt_connected rx h c s =
    (session_direct q (record { state = mqtt_connected; commands_rx = rx }) s, h)
direct_parts none q not_connected rx h c s = (refl, h)
direct_parts (some (err e)) q not_connected rx h c s = (refl, h)
direct_parts (some (ok a)) q not_connected true h c s = (session_direct q connected s, inl refl)
direct_parts (some (ok a)) q not_connected false (inl e) c s = cc e
direct_parts (some (ok a)) q not_connected false (inr e) c s = cc e
direct_parts (some panic) q not_connected rx h c s = elim c [ ]
direct_parts (some out_of_fuel) q not_connected rx h c s = elim c [ ]

-- In a state whose receiver has not been taken too early, and if neither inner future panics, a
-- call returns what the description without the loop says, without a panic and within two rounds,
-- and leaves such a state again.
pub event_loop_poll-direct :
    (a : Answers) (l : EventLoop)
    → IsReady l
    → Answered a.connect
    → Answered a.session
    → (event_loop_poll a l ≡ ok (direct l.state a l)) × IsReady (direct l.state a l).1
event_loop_poll-direct a l h c s = direct_parts a.connect a.session l.state l.commands_rx h c s
