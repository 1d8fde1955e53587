-- ===== src/Protocol/Ack/Puback/Ends.antt =====
-- src/protocol/puback.rs: the loop over the properties of PUBACK comes to an end.
use ruq.Base.{
  ℕ, Bool, true, false, if◌then◌else◌, ◌-◌, zero, suc, ◌+◌, ◌<◌, ◌≢◌, Option, none, some, [], ◌∷◌,
  ◌==◌, out_of_fuel, arith, slice_from, get_from, get_range, length, leb, drop, length-drop,
  Bool-cases, inl, inr, subst, take, length-take,
}
use ruq.Protocol.{Bytes}
use ruq.Protocol.Vbi.{vbi_from_mqtt}
use ruq.Protocol.Text.{string_from_mqtt}
use ruq.Protocol.Properties.{user_property_from}
use ruq.Protocol.Properties.Fuel.{
  Ends, Ends-bind, Ends-if, slice_from-Ends, string_from-Ends, user_property_from-Ends,
  vbi_from_loop-Ends,
}
use ruq.Protocol.Ack.Puback.{
  PubackProperties, no_properties, read_property, read_properties, puback_properties_from_mqtt,
}

read_property-Ends : (slice : Bytes) (ps : PubackProperties) → Ends (read_property slice ps)
unfolding read_property
read_property-Ends [] ps = tt
read_property-Ends (b ∷ bs) ps =
    Ends-if (b == 0x1f) _ _
      (Ends-bind (slice_from (b ∷ bs) 1) _ (slice_from-Ends (b ∷ bs) 1)
        (λ r. Ends-bind (string_from_mqtt r) _ (string_from-Ends r) (λ s. tt)))
      (Ends-if (b == 0x26) _ _
        (Ends-bind (user_property_from (b ∷ bs)) _ (user_property_from-Ends (b ∷ bs)) (λ kv. tt))
        tt)

-- The slice that is left, where there is one, is below the bound.
Below : ℕ → Option Bytes → Type 0
Below fuel none = Unit
Below fuel (some slice) = length slice < fuel

get_from-Below :
    (slice : Bytes) (n fuel : ℕ) → length slice < suc fuel → Below fuel (get_from slice (n + 1))
unfolding Below
get_from-Below slice n fuel h = elim (Bool-cases (leb (n + 1) (length slice))) [
  | inl inside ↦ rw inside (ground (arith, length-drop (n + 1) slice))
  | inr outside ↦ rw outside tt
]

read_properties-Ends :
    (fuel : ℕ) (o : Option Bytes) (ps : PubackProperties)
    → Below fuel o
    → Ends (read_properties fuel o ps)
unfolding read_properties Below
read_properties-Ends zero none ps h = tt
read_properties-Ends (suc fuel) none ps h = tt
read_properties-Ends zero (some slice) ps h = absurd (omega arith)
read_properties-Ends (suc fuel) (some slice) ps h =
    Ends-bind (read_property slice ps) _ (read_property-Ends slice ps) (λ r.
      read_properties-Ends fuel (get_from slice (r.1 + 1)) r.0 (get_from-Below slice r.1 fuel h))

Below-if :
    (fuel : ℕ) (b : Bool) (x y : Option Bytes)
    → Below fuel x
    → Below fuel y
    → Below fuel (if b then x else y)
Below-if fuel true x y h k = h
Below-if fuel false x y h k = k

get_range-Below : (buf : Bytes) (a n : ℕ) → Below (n + 1) (get_range buf a (a + n))
unfolding Below
get_range-Below buf a n =
    Below-if (n + 1) (leb a (a + n)) _ none
      (Below-if (n + 1) (leb (a + n) (length buf)) (some (take (a + n - a) (drop a buf))) none
        (omega (arith, length-take (a + n - a) (drop a buf))) tt)
      tt

-- Reading the properties of a PUBACK packet comes back on every input: its loop never runs out of
-- rounds.
pub puback_properties_from_mqtt-out_of_fuel :
    (buf : Bytes) → puback_properties_from_mqtt buf ≢ out_of_fuel
unfolding puback_properties_from_mqtt vbi_from_mqtt
puback_properties_from_mqtt-out_of_fuel buf e = subst Ends e (
    Ends-bind (vbi_from_mqtt buf) _ (vbi_from_loop-Ends buf 1 0 0) (λ l. Ends-if (l.0 == 0) _ _ tt (
      Ends-bind (read_properties (l.0 + 1) (get_range buf l.1 (l.1 + l.0)) no_properties) _
        (read_properties-Ends (l.0 + 1) (get_range buf l.1 (l.1 + l.0)) no_properties
          (get_range-Below buf l.1 l.0))
        (λ ps. tt))))
