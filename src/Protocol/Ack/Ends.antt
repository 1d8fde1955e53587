-- ===== src/Protocol/Ack/Ends.antt =====
-- src/protocol/connack.rs, suback.rs and unsuback.rs: the loop over their properties comes to an end.
use ruq.Base.{ℕ, ◌≢◌, [], ◌∷◌, ◌==◌, out_of_fuel, arith, slice_from, subst}
use ruq.Protocol.{Bytes}
use ruq.Protocol.Text.{string_from_mqtt}
use ruq.Protocol.Properties.{user_property_from}
use ruq.Protocol.Properties.Fuel.{
  Ends, Advances, Advances-bind, Advances-if, Advances-map, slice_from-Ends, string_from-Ends,
  user_property_from-Advances, properties_from-Ends,
}
use ruq.Protocol.Ack.{
  user_property, ack_property_by_id, ack_property_from_mqtt, ack_properties_from_mqtt,
}

ack_by_id-Advances : (id : ℕ) (buf : Bytes) → Advances (ack_property_by_id id buf)
unfolding ack_property_by_id
ack_by_id-Advances id buf =
    Advances-if (id == 0x1f) _ _
      (Advances-bind (slice_from buf 1) _ (slice_from-Ends buf 1)
        (λ b. Advances-bind (string_from_mqtt b) _ (string_from-Ends b) (λ s. omega arith)))
      (Advances-if (id == 0x26) _ _
        (Advances-map (user_property_from buf) (λ kv. user_property kv.0 kv.1)
          (user_property_from-Advances buf))
        tt)

ack_property_from-Advances : (buf : Bytes) → Advances (ack_property_from_mqtt buf)
unfolding ack_property_from_mqtt
ack_property_from-Advances [] = tt
ack_property_from-Advances (b ∷ bs) = ack_by_id-Advances b (b ∷ bs)

-- Reading the properties of a CONNACK, SUBACK or UNSUBACK packet comes back on every input: its loop
-- never runs out of rounds.
pub ack_properties_from_mqtt-out_of_fuel :
    (bytes : Bytes) → ack_properties_from_mqtt bytes ≢ out_of_fuel
unfolding ack_properties_from_mqtt
ack_properties_from_mqtt-out_of_fuel bytes e =
    subst Ends e (properties_from-Ends ack_property_from_mqtt ack_property_from-Advances bytes)
