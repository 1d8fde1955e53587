-- ===== src/Client/Calls.antt =====
-- src/client.rs, the methods of `Client`. The sending end of the channel is `Tx`, and what its
-- `try_send` does to it is a parameter: no error, or one.
use ruq.Base.{
  ◌≡◌, refl, sym, ◌∙◌, ap, Option, none, some, List, [], ◌∷◌, ◌++◌, append_assoc, append-nil,
}
use ruq.Protocol.{Bytes}
use ruq.Protocol.Qos.{QoS}
use ruq.Client.{Command, PublishBuilder, build}

-- The text that `with_context` puts before the error.
pub data Context : Type 0 where
  subscribe_chan_send_failed publish_chan_send_failed : Context
  unsubscribe_chan_send_failed disconnect_chan_send_failed : Context

-- A call of a method.
pub data Call : Type 0 where
  connecting : Call
  subscribing : Bytes → QoS → Call
  publishing : PublishBuilder → Call
  unsubscribing : Bytes → Call
  disconnecting : Call

-- The command that the call is to send.
unfoldable pub commands : Call → List Command
commands connecting = []
commands (subscribing topic qos) = Command.subscribe topic qos ∷ []
commands (publishing b) = build b ∷ []
commands (unsubscribing topic) = Command.unsubscribe (topic ∷ []) ∷ []
commands disconnecting = Command.disconnect ∷ []

-- The commands of the calls that came back without an error.
unfoldable pub accepted : {R : Type 0} → List Call → List (Option R) → List Command
accepted (c ∷ calls) (none ∷ answers) = commands c ++ accepted calls answers
accepted (c ∷ calls) (some e ∷ answers) = accepted calls answers
accepted _ _ = []

module _ {Tx E : Type 0} (try_send : Command → Tx → Option E × Tx) where
  unfoldable pub with_context : Context → Option E × Tx → Option (Context × E) × Tx
  with_context text (none, tx) = (none, tx)
  with_context text (some e, tx) = (some (text, e), tx)

  unfoldable pub connect : Tx → Option (Context × E) × Tx
  connect tx = (none, tx)

  unfoldable pub subscribe : Bytes → QoS → Tx → Option (Context × E) × Tx
  unfolding with_context
  subscribe topic qos tx =
      with_context subscribe_chan_send_failed (try_send (Command.subscribe topic qos) tx)

  unfoldable pub publish : PublishBuilder → Tx → Option (Context × E) × Tx
  unfolding with_context
  publish b tx = with_context publish_chan_send_failed (try_send (build b) tx)

  unfoldable pub unsubscribe : Bytes → Tx → Option (Context × E) × Tx
  unfolding with_context
  unsubscribe topic tx =
      with_context unsubscribe_chan_send_failed (try_send (Command.unsubscribe (topic ∷ [])) tx)

  unfoldable pub disconnect : Tx → Option (Context × E) × Tx
  unfolding with_context
  disconnect tx = with_context disconnect_chan_send_failed (try_send Command.disconnect tx)

  unfoldable pub call : Call → Tx → Option (Context × E) × Tx
  unfolding connect subscribe publish unsubscribe disconnect
  call connecting tx = connect tx
  call (subscribing topic qos) tx = subscribe topic qos tx
  call (publishing b) tx = publish b tx
  call (unsubscribing topic) tx = unsubscribe topic tx
  call disconnecting tx = disconnect tx

  -- Calls, one after the other.
  unfoldable pub calls : List Call → Tx → List (Option (Context × E)) × Tx
  calls [] tx = ([], tx)
  calls (c ∷ cs) tx =
      let (answer, tx') = call c tx in
      let (answers, tx'') = calls cs tx' in (answer ∷ answers, tx'')

-- What a bounded channel documents: `items` are the messages in it; without an error `try_send` has
-- put its message behind them, with one it has not.
pub record IsChannel {Tx E : Type 0} (try_send : Command → Tx → Option E × Tx)
    (items : Tx → List Command) : Type 0 where
  pub sent :
      (c : Command) (tx tx' : Tx) → try_send c tx ≡ (none, tx') → items tx' ≡ items tx ++ (c ∷ [])
  pub kept :
      (c : Command) (tx tx' : Tx) (e : E) → try_send c tx ≡ (some e, tx') → items tx' ≡ items tx

module _ {Tx E : Type 0} (try_send : Command → Tx → Option E × Tx) (items : Tx → List Command)
    (channel : IsChannel try_send items) where
  abbrev Kept : List Command → List Command → Option (Context × E) × Tx → Type 0
  Kept now new (none, tx') = items tx' ≡ now ++ new
  Kept now new (some e, tx') = items tx' ≡ now

  with_context-Kept :
      (text : Context) (c : Command) (tx : Tx)
      → Kept (items tx) (c ∷ []) (with_context try_send text (try_send c tx))
  unfolding with_context
  with_context-Kept text c tx = after (try_send c tx) refl
    where
      after :
          (r : Option E × Tx)
          → try_send c tx ≡ r
          → Kept (items tx) (c ∷ []) (with_context try_send text r)
      after (none, tx') q = channel.sent c tx tx' q
      after (some e, tx') q = channel.kept c tx tx' e q

  call-Kept : (c : Call) (tx : Tx) → Kept (items tx) (commands c) (call try_send c tx)
  unfolding call commands connect subscribe publish unsubscribe disconnect
  call-Kept connecting tx = sym (append-nil _)
  call-Kept (subscribing topic qos) tx = with_context-Kept _ _ tx
  call-Kept (publishing b) tx = with_context-Kept _ _ tx
  call-Kept (unsubscribing topic) tx = with_context-Kept _ _ tx
  call-Kept disconnecting tx = with_context-Kept _ _ tx

  call_then :
      (c : Call) (cs : List Call) (now : List Command) (r : Option (Context × E) × Tx)
      → Kept now (commands c) r
      → items (calls try_send cs r.1).1 ≡ items r.1 ++ accepted cs (calls try_send cs r.1).0
      → items (calls try_send cs r.1).1 ≡ now ++ accepted (c ∷ cs) (r.0 ∷ (calls try_send cs r.1).0)
  unfolding accepted
  call_then c cs now (none, tx') k rest =
      rest ∙ ap (λ l. l ++ accepted cs (calls try_send cs tx').0) k ∙ append_assoc now _ _
  call_then c cs now (some e, tx') k rest =
      rest ∙ ap (λ l. l ++ accepted cs (calls try_send cs tx').0) k

-- Over a channel that does what it documents, behind what was in it stand the commands of just
-- those calls that came back without an error, in the order of the calls.
pub calls-accepted :
    {Tx E : Type 0} (try_send : Command → Tx → Option E × Tx) (items : Tx → List Command)
    → IsChannel try_send items
    → (cs : List Call) (tx : Tx)
    → items (calls try_send cs tx).1 ≡ items tx ++ accepted cs (calls try_send cs tx).0
unfolding calls accepted
calls-accepted try_send items channel [] tx = sym (append-nil (items tx))
calls-accepted try_send items channel (c ∷ cs) tx =
    call_then try_send items channel c cs (items tx) (call try_send c tx)
      (call-Kept try_send items channel c tx)
      (calls-accepted try_send items channel cs (call try_send c tx).1)
