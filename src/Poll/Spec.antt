-- ===== src/Poll/Spec.antt =====
-- What `poll` of src/lib.rs promises for a whole connection, over the machine of EventLoop/Spec.
use ruq.Base.{◌≡◌, ◌≢◌, Option, none, some, List, [], ◌∷◌, ◌++◌, All, false}
use ruq.Protocol.{Bytes, IoError, invalid_data}
use ruq.Protocol.Ack.Connack.{Connack}
use ruq.Protocol.Packet.{Packet}
use ruq.PktIds.Start.{up_to}
use ruq.EventLoop.{Session, Output, wrote, notified, conn_ack, Event, first_packet}
use ruq.EventLoop.Spec.{View, Views, Encodes, Step, Stops, Fails, Panics}
use ruq.EventLoop.Refines.{Expected}
use ruq.Poll.{
  Incoming, got, failed_read, ended, Ending, waiting, running, returned, failed, panicked, Run,
  Events, poll_client_id,
}

-- All identifiers are free, and nothing is under way.
abbrev pub at_start : View
at_start = record { free = up_to 65535; in_flight = []; owed = false }

-- Along every path of the machine the server acknowledges only identifiers in use.
unfoldable pub Expects : View → Events → Type 0
Expects v [] = Unit
Expects v ((w, e) ∷ events) =
    Expected v e × ((out : List Output) (v' : View) → Step v w e out v' → Expects v' events)

-- A path of the machine, with all its outputs, and where it ends.
pub data Follows : View → Events → Run → Type 0 where
  up_to_now : {v : View} {s : Session} → Views v s → Follows v [] ([], running s)
  one_step :
      {v v' : View} {w : Option IoError} {e : Event} {events : Events} {out outs : List Output}
      {end : Ending}
      → Step v w e out v'
      → Follows v' events (outs, end)
      → Follows v ((w, e) ∷ events) (out ++ outs, end)
  stopped :
      {v : View} {w : Option IoError} {e : Event} {events : Events} {out : List Output}
      → Stops w e out
      → Follows v ((w, e) ∷ events) (out, returned)
  broken :
      {v : View} {w : Option IoError} {e : Event} {events : Events} {x : IoError}
      → Fails v w e x
      → Follows v ((w, e) ∷ events) ([], failed x)
  crashed :
      {v : View} {w : Option IoError} {e : Event} {events : Events}
      → Panics v e
      → Follows v ((w, e) ∷ events) ([], panicked)

-- The first item behind ends of the stream.
pub data FirstIs : List Incoming → Incoming → Type 0 where
  here : {i : Incoming} {more : List Incoming} → i ≢ ended → FirstIs (i ∷ more) i
  later : {i : Incoming} {more : List Incoming} → FirstIs more i → FirstIs (ended ∷ more) i

-- CONNECT is written first, and a socket that refuses it ends the connection with its error. Nothing
-- else is done until the first packet, which must be a CONNACK and is passed on; from there the
-- machine runs from its start.
pub data Serves (w : Option IoError) (incoming : List Incoming) (events : Events)
    : Run → Type 0 where
  unsent : {x : IoError} → w ≡ some x → Serves w incoming events ([], failed x)
  quiet :
      {b : Bytes}
      → w ≡ none
      → Encodes (Packet.connect (first_packet poll_client_id)) b
      → All (λ i. i ≡ ended) incoming
      → Serves w incoming events (wrote b ∷ [], waiting)
  lost :
      {b : Bytes} {x : IoError}
      → w ≡ none
      → Encodes (Packet.connect (first_packet poll_client_id)) b
      → FirstIs incoming (failed_read x)
      → Serves w incoming events (wrote b ∷ [], failed x)
  refused :
      {b : Bytes} {p : Packet}
      → w ≡ none
      → Encodes (Packet.connect (first_packet poll_client_id)) b
      → FirstIs incoming (got p)
      → ((c : Connack) → p ≢ Packet.connack c)
      → Serves w incoming events (wrote b ∷ [], failed invalid_data)
  accepted :
      {b : Bytes} {c : Connack} {outs : List Output} {end : Ending}
      → w ≡ none
      → Encodes (Packet.connect (first_packet poll_client_id)) b
      → FirstIs incoming (got (Packet.connack c))
      → Follows at_start events (outs, end)
      → Serves w incoming events (wrote b ∷ notified (conn_ack c) ∷ outs, end)
