-- ===== src/Client.antt =====
-- src/client.rs, and `Command` of src/lib.rs: what the user's side sends to the event loop.
pub mod Calls
use ruq.Base.{Bool, false, Option, none, some, List, [], ◌∷◌, ◌++◌}
use ruq.Protocol.{Bytes}
use ruq.Protocol.Qos.{QoS, at_most_once}
use ruq.Protocol.Property.{Property, payload_format_id}
use ruq.Protocol.Publish.{Payload, string, bytes}
use mathlib.Core.Option.{get_or}

pub data Command : Type 0 where
  publish :
      (topic : Bytes) (payload : Payload) (properties : List Property) (qos : QoS) (retain : Bool)
      → Command
  subscribe : Bytes → QoS → Command
  unsubscribe : List Bytes → Command
  disconnect : Command

pub record PublishBuilder : Type 0 where
  pub topic : Bytes
  pub payload : Payload
  pub properties : List Property
  pub qos : Option QoS
  pub retain : Option Bool

-- `PublishBuilder::from_bytes` and `from_str`: the first property says what the payload is.
unfoldable pub from_bytes : Bytes → Bytes → PublishBuilder
from_bytes topic payload = record {
  topic = topic;
  payload = bytes payload;
  properties = payload_format_id 0 ∷ [];
  qos = none;
  retain = none;
}

unfoldable pub from_str : Bytes → Bytes → PublishBuilder
from_str topic payload = record {
  topic = topic;
  payload = string payload;
  properties = payload_format_id 1 ∷ [];
  qos = none;
  retain = none;
}

-- `PublishBuilder::qos` and `with_property`.
unfoldable pub set_qos : QoS → PublishBuilder → PublishBuilder
set_qos qos b = record b { qos = some qos }

unfoldable pub with_property : Property → PublishBuilder → PublishBuilder
with_property prop b = record b { properties = b.properties ++ (prop ∷ []) }

-- `PublishBuilder::build`.
unfoldable pub build : PublishBuilder → Command
build b = publish b.topic b.payload b.properties (get_or b.qos at_most_once) (get_or b.retain false)
