-- ===== src/Codec/Ends/Fields.antt =====
-- Reading the parts of a packet, src/protocol, comes back on every input; with rules for `search`.
use ruq.Base.{
  ℕ, ◌≢◌, refl, Bool, Option, leb, arith, Outcome, ok, err, panic, out_of_fuel, ◌>>=◌,
  if◌then◌else◌, slice, slice_from, index, checked_sub, ok_or,
}
use ruq.Protocol.{Bytes, ConvertError}
use ruq.Protocol.Vbi.{vbi_from_mqtt}
use ruq.Protocol.Text.{string_from_mqtt}
use ruq.Protocol.PktId.{pktid_from_mqtt}
use ruq.Protocol.Qos.{flags_try_from}
use ruq.Protocol.Properties.{properties_from_mqtt}
use ruq.Protocol.Properties.Fuel.{
  Ends, Ends-bind, Ends-if, slice_from-Ends, slice-Ends, index-Ends, ok_or-Ends, string_from-Ends,
  vbi_from_loop-Ends,
}
use ruq.Protocol.Property.{property_from_mqtt}
use ruq.Protocol.Property.Ends.{properties_from_mqtt-out_of_fuel}
use ruq.Protocol.Reason.Connack.{connack_reason_try_from}
use ruq.Protocol.Reason.Suback.{suback_reason_try_from}
use ruq.Protocol.Reason.Unsuback.{unsuback_reason_try_from}
use ruq.Protocol.Reason.Puback.{puback_reason_try_from}
use ruq.Protocol.Reason.Disconnect.{disconnect_reason_try_from}
use ruq.Protocol.Ack.{ack_properties_from_mqtt}
use ruq.Protocol.Ack.Ends.{ack_properties_from_mqtt-out_of_fuel}
use ruq.Protocol.Ack.Connack.{connack_flags_try_from}
use ruq.Protocol.Ack.Puback.{puback_properties_from_mqtt}
use ruq.Protocol.Ack.Puback.Ends.{puback_properties_from_mqtt-out_of_fuel}
use ruq.Protocol.Disconnect.{disconnect_properties_from_mqtt}
use ruq.Protocol.Disconnect.Ends.{disconnect_properties_from_mqtt-out_of_fuel}

Ends-of : {A : Type 0} (r : Outcome ConvertError A) → r ≢ out_of_fuel → Ends r
Ends-of (ok a) h = tt
Ends-of (err e) h = tt
Ends-of panic h = tt
Ends-of out_of_fuel h = h refl

connack_reason-Ends : (b : ℕ) → Ends (connack_reason_try_from b)
unfolding connack_reason_try_from
connack_reason-Ends b = ground arith

suback_reason-Ends : (b : ℕ) → Ends (suback_reason_try_from b)
unfolding suback_reason_try_from
suback_reason-Ends b = ground arith

unsuback_reason-Ends : (b : ℕ) → Ends (unsuback_reason_try_from b)
unfolding unsuback_reason_try_from
unsuback_reason-Ends b = ground arith

puback_reason-Ends : (b : ℕ) → Ends (puback_reason_try_from b)
unfolding puback_reason_try_from
puback_reason-Ends b = ground arith

disconnect_reason-Ends : (b : ℕ) → Ends (disconnect_reason_try_from b)
unfolding disconnect_reason_try_from
disconnect_reason-Ends b = ground arith

connack_flags-Ends : (b : ℕ) → Ends (connack_flags_try_from b)
unfolding connack_flags_try_from
connack_flags-Ends b = ground arith

flags-Ends : (b : ℕ) → Ends (flags_try_from b)
unfolding flags_try_from
flags-Ends b = ground arith

pktid_from-Ends : (bytes : Bytes) → Ends (pktid_from_mqtt bytes)
unfolding pktid_from_mqtt
pktid_from-Ends bytes = ground arith

-- The same as a record, so that the rules find the action.
pub record Returns {A : Type 0} (m : Outcome ConvertError A) : Type 0 where
  pub ends : Ends m

module _ {A : Type 0} where
  pub Returns-of : (m : Outcome ConvertError A) → Ends m → Returns m
  Returns-of m h = record { ends = h }

  pub Returns-ok : (a : A) → Returns (ok a)
  Returns-ok a = record { ends = tt }

  pub Returns-err : (e : ConvertError) → Returns {A = A} (err e)
  Returns-err e = record { ends = tt }

  pub Returns-if :
      (b : Bool) (x y : Outcome ConvertError A)
      → Returns x
      → Returns y
      → Returns (if b then x else y)
  Returns-if b x y h k = record { ends = Ends-if b x y h.ends k.ends }

pub Returns-bind :
    {A B : Type 0} (m : Outcome ConvertError A) (f : A → Outcome ConvertError B)
    → Returns m
    → ((a : A) → Returns (f a))
    → Returns (m >>= f)
Returns-bind m f h k = record { ends = Ends-bind m f h.ends (λ a. (k a).ends) }

pub slice_from-Returns : (buf : Bytes) (n : ℕ) → Returns (slice_from buf n)
slice_from-Returns buf n = Returns-of _ (slice_from-Ends buf n)

pub slice-Returns : (buf : Bytes) (a b : ℕ) → Returns (slice buf a b)
slice-Returns buf a b = Returns-of _ (slice-Ends buf a b)

pub index-Returns : (buf : Bytes) (n : ℕ) → Returns (index buf n)
index-Returns buf n = Returns-of _ (index-Ends buf n)

pub vbi-Returns : (bytes : Bytes) → Returns (vbi_from_mqtt bytes)
unfolding vbi_from_mqtt
vbi-Returns bytes = Returns-of _ (vbi_from_loop-Ends bytes 1 0 0)

pub ruleset reads = (
  Returns-ok, Returns-err, Returns-if, Returns-bind, slice_from-Returns, slice-Returns,
  index-Returns, vbi-Returns,
)

-- The bytes that stand for a value, and the lists of properties.
pub connack_reason-Returns : (b : ℕ) → Returns (connack_reason_try_from b)
connack_reason-Returns b = Returns-of _ (connack_reason-Ends b)

pub suback_reason-Returns : (b : ℕ) → Returns (suback_reason_try_from b)
suback_reason-Returns b = Returns-of _ (suback_reason-Ends b)

pub unsuback_reason-Returns : (b : ℕ) → Returns (unsuback_reason_try_from b)
unsuback_reason-Returns b = Returns-of _ (unsuback_reason-Ends b)

pub puback_reason-Returns : (b : ℕ) → Returns (puback_reason_try_from b)
puback_reason-Returns b = Returns-of _ (puback_reason-Ends b)

pub disconnect_reason-Returns : (b : ℕ) → Returns (disconnect_reason_try_from b)
disconnect_reason-Returns b = Returns-of _ (disconnect_reason-Ends b)

pub connack_flags-Returns : (b : ℕ) → Returns (connack_flags_try_from b)
connack_flags-Returns b = Returns-of _ (connack_flags-Ends b)

pub flags-Returns : (b : ℕ) → Returns (flags_try_from b)
flags-Returns b = Returns-of _ (flags-Ends b)

pub pktid-Returns : (bytes : Bytes) → Returns (pktid_from_mqtt bytes)
pktid-Returns bytes = Returns-of _ (pktid_from-Ends bytes)

pub text-Returns : (bytes : Bytes) → Returns (string_from_mqtt bytes)
text-Returns bytes = Returns-of _ (string_from-Ends bytes)

pub properties-Returns : (bytes : Bytes) → Returns (properties_from_mqtt property_from_mqtt bytes)
properties-Returns bytes = Returns-of _ (Ends-of _ (properties_from_mqtt-out_of_fuel bytes))

pub ack_properties-Returns : (bytes : Bytes) → Returns (ack_properties_from_mqtt bytes)
ack_properties-Returns bytes = Returns-of _ (Ends-of _ (ack_properties_from_mqtt-out_of_fuel bytes))

pub puback_properties-Returns : (bytes : Bytes) → Returns (puback_properties_from_mqtt bytes)
puback_properties-Returns bytes =
    Returns-of _ (Ends-of _ (puback_properties_from_mqtt-out_of_fuel bytes))

pub disconnect_properties-Returns :
    (bytes : Bytes) → Returns (disconnect_properties_from_mqtt bytes)
disconnect_properties-Returns bytes =
    Returns-of _ (Ends-of _ (disconnect_properties_from_mqtt-out_of_fuel bytes))

pub get-Returns : {A : Type 0} (e : ConvertError) (o : Option A) → Returns (ok_or e o)
get-Returns e o = Returns-of _ (ok_or-Ends e o)

pub checked_sub-Returns : (a b : ℕ) → Returns (checked_sub a b)
checked_sub-Returns a b = Returns-of _ (Ends-if (leb b a) _ _ tt tt)

pub ruleset fields = (
  connack_reason-Returns, suback_reason-Returns, unsuback_reason-Returns, puback_reason-Returns,
  disconnect_reason-Returns, connack_flags-Returns, flags-Returns, pktid-Returns, text-Returns,
  properties-Returns, ack_properties-Returns, puback_properties-Returns,
  disconnect_properties-Returns, get-Returns, checked_sub-Returns,
)
