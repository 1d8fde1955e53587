-- ===== src/Protocol/Disconnect/Ends.antt =====
-- src/protocol/disconnect.rs: the loop over the properties of DISCONNECT comes to an end.
use ruq.Base.{ℕ, ◌≢◌, [], ◌∷◌, ◌==◌, out_of_fuel, arith, slice_from, subst}
use ruq.Protocol.{Bytes}
use ruq.Protocol.Text.{string_from_mqtt}
use ruq.Protocol.Properties.{user_property_from}
use ruq.Protocol.Properties.Fuel.{
  Ends, Advances, Advances-bind, Advances-if, Advances-map, slice_from-Ends, string_from-Ends,
  user_property_from-Advances, properties_from-Ends,
}
use ruq.Protocol.Disconnect.{
  user_property, disconnect_property_by_id, disconnect_property_from_mqtt,
  disconnect_properties_from_mqtt,
}

disconnect_by_id-Advances : (id : ℕ) (buf : Bytes) → Advances (disconnect_property_by_id id buf)
unfolding disconnect_property_by_id
disconnect_by_id-Advances id buf = Advances-if (id == 0x11) _ _ tt (
    Advances-if (id == 0x1f) _ _
      (Advances-bind (slice_from buf 1) _ (slice_from-Ends buf 1)
        (λ b. Advances-bind (string_from_mqtt b) _ (string_from-Ends b) (λ s. omega arith)))
      (Advances-if (id == 0x26) _ _
        (Advances-map (user_property_from buf) (λ kv. user_property kv.0 kv.1)
          (user_property_from-Advances buf))
        tt))

disconnect_property_from-Advances : (buf : Bytes) → Advances (disconnect_property_from_mqtt buf)
unfolding disconnect_property_from_mqtt
disconnect_property_from-Advances [] = tt
disconnect_property_from-Advances (b ∷ bs) = disconnect_by_id-Advances b (b ∷ bs)

-- Reading the properties of a DISCONNECT packet comes back on every input: its loop never runs
-- out of rounds.
pub disconnect_properties_from_mqtt-out_of_fuel :
    (bytes : Bytes) → disconnect_properties_from_mqtt bytes ≢ out_of_fuel
unfolding disconnect_properties_from_mqtt
disconnect_properties_from_mqtt-out_of_fuel bytes e =
    subst Ends e
      (properties_from-Ends disconnect_property_from_mqtt disconnect_property_from-Advances bytes)
