-- ===== src/Tests/Users.antt =====
-- src/client.rs: the methods of `Client` on a bounded channel.
use ruq.Base.{ℕ, ◌≡◌, none, some, Option, List, [], ◌∷◌, ◌++◌, arith, length, ltb, if◌then◌else◌}
use ruq.Protocol.Qos.{at_most_once}
use ruq.Client
use ruq.Client.{Command}
use ruq.Client.Calls.{
  Call, subscribing, publishing, disconnecting, connecting, calls, accepted, IsChannel,
  calls-accepted,
}

-- A channel with room for two commands; the error is their number.
abbrev bounded_send : Command → List Command → Option ℕ × List Command
bounded_send c tx = if ltb (length tx) 2 then (none, tx ++ (c ∷ [])) else (some (length tx), tx)

bounded_send-IsChannel : IsChannel bounded_send (λ tx. tx)
bounded_send-IsChannel = record {
  sent = λ c tx tx' e. ground arith;
  kept = λ c tx tx' x e. ground arith;
}

abbrev some_calls : List Call
some_calls =
    connecting
    ∷ subscribing [] at_most_once
    ∷ publishing (Client.from_str [] [])
    ∷ disconnecting
    ∷ []

calls-accepted_example :
    (calls bounded_send some_calls []).1
    ≡ [] ++ accepted some_calls (calls bounded_send some_calls []).0
calls-accepted_example = calls-accepted bounded_send (λ tx. tx) bounded_send-IsChannel some_calls []
