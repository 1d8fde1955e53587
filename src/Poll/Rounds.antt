-- ===== src/Poll/Rounds.antt =====
-- src/lib.rs, `poll`: the rounds, where the outcome of the first is known.
use ruq.Base.{◌≡◌, refl, Option, List, [], ◌∷◌, ok, panic}
use ruq.Protocol.{IoError}
use ruq.Protocol.Packet.{Packet}
use ruq.EventLoop.Spec.{Encodes}
use ruq.EventLoop.{Session, Output, wrote, Event, go, round}
use ruq.Poll.{panicked, Events, after, rounds}

-- The outputs are the encodings of the packets, one write for each.
abbrev pub Written : List Packet → List Output → Type 0
Written [] [] = Unit
Written (p ∷ ps) (wrote b ∷ out) = Encodes p b × Written ps out
Written _ _ = ⊥

pub goes_on :
    (w : Option IoError) (e : Event) (es : Events) (s s' : Session) (out : List Output)
    → round w e s ≡ ok (go s' out)
    → rounds ((w, e) ∷ es) s ≡ after out (rounds es s')
unfolding rounds
goes_on w e es s s' out ran = rw (ran, rounds) refl

pub stops :
    (w : Option IoError) (e : Event) (es : Events) (s : Session)
    → round w e s ≡ panic
    → (rounds ((w, e) ∷ es) s).1 ≡ panicked
unfolding rounds
stops w e es s ran = rw (ran, rounds) refl
