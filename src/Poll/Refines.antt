-- ===== src/Poll/Refines.antt =====
-- `poll` of src/lib.rs keeps the promise of Poll/Spec.
use ruq.Base.{
  ◌⊎◌, inl, inr, ◌≡◌, refl, ◌≢◌, Option, none, some, List, [], ◌∷◌, All, ok, err, panic,
  out_of_fuel,
}
use ruq.Protocol.{Bytes, IoError, invalid_data}
use ruq.Protocol.Ack.Connack.{Connack}
use ruq.Protocol.Requests.{connect_to_mqtt}
use ruq.Protocol.Packet.{Packet, packet_to_mqtt}
use ruq.EventLoop.{
  Session, Output, wrote, Event, go, done, Round, round, send, session_new, first_packet, on_first,
}
use ruq.EventLoop.InFlight.{session_new-Tracks}
use ruq.EventLoop.Spec.{View, Views, Encodes, Step, Allowed}
use ruq.EventLoop.Refines.{round-Allowed}
use ruq.Poll.{
  Incoming, got, failed_read, ended, Events, poll_client_id, await_first, rounds, accept, poll,
  after,
}
use ruq.Poll.Spec.{at_start, Expects, Follows, FirstIs, Serves}
use ruq.Poll.Spec

-- One round, by its outcome, and the others.
Follows-round :
    (v : View) (w : Option IoError) (e : Event) (events : Events) (s : Session) (r : Round)
    → round w e s ≡ r
    → Allowed v w e r
    → ((out : List Output) (v' : View) (s' : Session)
        → Step v w e out v'
        → Views v' s'
        → Follows v' events (rounds events s'))
    → Follows v ((w, e) ∷ events) (rounds ((w, e) ∷ events) s)
unfolding rounds
Follows-round v w e events s (ok (go s' out)) run (v', step, views) more =
    rw (run, rounds) (Spec.one_step step (more out v' s' step views))
Follows-round v w e events s (ok (done out)) run stops more = rw (run, rounds) (Spec.stopped stops)
Follows-round v w e events s (err x) run fails more = rw (run, rounds) (Spec.broken fails)
Follows-round v w e events s panic run panics more = rw (run, rounds) (Spec.crashed panics)
Follows-round v w e events s out_of_fuel run h more = elim h [ ]

-- From a state of the view `v`, where the server acknowledges only identifiers in use, the rounds
-- for any events follow a path of the machine, with its outputs and its ending.
pub rounds-Follows :
    (v : View) (s : Session) (events : Events)
    → Views v s
    → Expects v events
    → Follows v events (rounds events s)
unfolding Expects
rounds-Follows v s [] h u = unfold rounds in Spec.up_to_now h
rounds-Follows v s ((w, e) ∷ events) h (u, us) =
    Follows-round v w e events s (round w e s) refl (round-Allowed v w s e h u)
      (λ out v' s' step views. rounds-Follows v' s' events views (us out v' step))

start-Views : Views at_start session_new
unfolding session_new
start-Views = record { held = session_new-Tracks.held; same_queue = refl; same_ping = refl }

-- The item that the wait ends with.
first_found :
    (incoming : List Incoming)
    → ((await_first incoming ≡ none) × All (λ i. i ≡ ended) incoming)
      ⊎ ((x : IoError) × (await_first incoming ≡ some (err x)) × FirstIs incoming (failed_read x))
      ⊎ ((p : Packet) × (await_first incoming ≡ some (ok p)) × FirstIs incoming (got p))
unfolding await_first
first_found [] = inl (refl, tt)
first_found (got p ∷ more) = inr (inr (p, refl, Spec.here (λ z. cc z)))
first_found (failed_read x ∷ more) = inr (inl (x, refl, Spec.here (λ z. cc z)))
first_found (ended ∷ more) = elim (first_found more) [
  | inl (none_yet, all) ↦ inl (none_yet, (refl, all))
  | inr (inl (x, e, first)) ↦ inr (inl (x, e, Spec.later first))
  | inr (inr (p, e, first)) ↦ inr (inr (p, e, Spec.later first))
]

-- A packet that is no CONNACK ends the connection.
refused_by :
    (p : Packet)
    → ((c : Connack) × (p ≡ Packet.connack c))
      ⊎ (((c : Connack) → p ≢ Packet.connack c) × (on_first p ≡ err invalid_data))
unfolding on_first
refused_by (Packet.connack c) = inl (c, refl)
refused_by (Packet.connect c) = inr ((λ d z. cc z), refl)
refused_by (Packet.publish c) = inr ((λ d z. cc z), refl)
refused_by (Packet.pub_ack c) = inr ((λ d z. cc z), refl)
refused_by Packet.ping_req = inr ((λ d z. cc z), refl)
refused_by Packet.ping_resp = inr ((λ d z. cc z), refl)
refused_by (Packet.subscribe c) = inr ((λ d z. cc z), refl)
refused_by (Packet.sub_ack c) = inr ((λ d z. cc z), refl)
refused_by (Packet.unsubscribe c) = inr ((λ d z. cc z), refl)
refused_by (Packet.unsub_ack c) = inr ((λ d z. cc z), refl)
refused_by (Packet.disconnect c) = inr ((λ d z. cc z), refl)

module _ (incoming : List Incoming) (events : Events) (u : Expects at_start events) where
  abbrev connect_bytes : Bytes
  connect_bytes = connect_to_mqtt (first_packet poll_client_id)

  encoded : Encodes (Packet.connect (first_packet poll_client_id)) connect_bytes
  unfolding packet_to_mqtt
  encoded = refl

  accepted_by :
      (c : Connack)
      → await_first incoming ≡ some (ok (Packet.connack c))
      → FirstIs incoming (got (Packet.connack c))
      → Serves none incoming events
          (after (wrote connect_bytes ∷ []) (accept events (await_first incoming)))
  unfolding accept on_first
  accepted_by c e first =
      rw e (
        Spec.accepted refl encoded first (rounds-Follows at_start session_new events start-Views u))

  poll_sent :
      Serves none incoming events
        (after (wrote connect_bytes ∷ []) (accept events (await_first incoming)))
  unfolding accept
  poll_sent = elim (first_found incoming) [
    | inl (e, all) ↦ rw (e) (Spec.quiet refl encoded all)
    | inr (inl (x, e, first)) ↦ rw (e) (Spec.lost refl encoded first)
    | inr (inr (p, e, first)) ↦ elim (refused_by p) [
      | inl (c, q) ↦ accepted_by c (rw q at e) (rw q at first)
      | inr (ne, q) ↦ rw (e) (rw (q, accept) (Spec.refused refl encoded first ne))
    ]
  ]

-- A call of `poll`, whatever happens in it, does what the specification of a connection says, if the
-- server acknowledges only identifiers in use.
pub poll-Serves :
    (w : Option IoError) (incoming : List Incoming) (events : Events)
    → Expects at_start events
    → Serves w incoming events (poll w incoming events)
unfolding poll send packet_to_mqtt
poll-Serves (some x) incoming events u = Spec.unsent refl
poll-Serves none incoming events u = poll_sent incoming events u
