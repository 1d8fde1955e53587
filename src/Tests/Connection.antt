-- ===== src/Tests/Connection.antt =====
-- src/lib.rs as a whole: a call of `poll`, and the future around it.
use ruq.Base.{◌≡◌, false, refl, none, some, List, [], ◌∷◌, inr, ok}
use ruq.Protocol.{other_io}
use ruq.Protocol.Packet
use ruq.Protocol.Ack.Connack.{Connack}
use ruq.Protocol.Reason.Connack.{success}
use ruq.EventLoop.{tick, received}
use ruq.Poll.{Incoming, got, ended, Events, poll}
use ruq.Poll.Spec.{at_start, Expects, Serves}
use ruq.Poll.Refines.{poll-Serves}
use ruq.EventLoop.Refines.{Expected}
use ruq.Future.{Answers, event_loop_poll, client_new}
use ruq.Future.Direct.{IsReady, direct, event_loop_poll-direct}

abbrev welcome : Connack
welcome = record { flags = record { session_present = false }; reason = success; properties = [] }

abbrev first_items : List Incoming
first_items = ended ∷ got (Packet.connack welcome) ∷ []

-- A tick, its answer, and a tick that the socket refuses.
abbrev ping_pong : Events
ping_pong = (none, tick) ∷ (none, received Packet.ping_resp) ∷ (some other_io, tick) ∷ []

ping_pong-Expects : Expects at_start ping_pong
unfolding Expects Expected
ping_pong-Expects = (tt, λ out v' st. (tt, λ out' v'' st'. (tt, λ out'' v''' st''. tt)))

poll-Serves_example : Serves none first_items ping_pong (poll none first_items ping_pong)
poll-Serves_example = poll-Serves none first_items ping_pong ping_pong-Expects

-- The connect is done in this call, and the connection waits.
abbrev connected_now : Answers
connected_now = record { connect = some (ok tt); session = none }

client_new-IsReady : IsReady client_new
unfolding client_new
client_new-IsReady = inr refl

event_loop_poll-direct_example :
    (event_loop_poll connected_now client_new
      ≡ ok (direct client_new.state connected_now client_new))
    × IsReady (direct client_new.state connected_now client_new).1
event_loop_poll-direct_example =
    event_loop_poll-direct connected_now client_new client_new-IsReady tt tt
