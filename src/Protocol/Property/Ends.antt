-- ===== src/Protocol/Property/Ends.antt =====
-- src/protocol/properties.rs: the loop over the properties of a PUBLISH packet comes to an end.
use ruq.Base.{ℕ, ◌≢◌, [], ◌∷◌, ◌==◌, out_of_fuel, arith, ok_or, get_range, index, slice_from, subst}
use ruq.Protocol.{Bytes, not_enough_bytes}
use ruq.Protocol.Text.{string_from_mqtt, vec_from_mqtt}
use ruq.Protocol.Properties.{user_property_from, properties_from_mqtt}
use ruq.Protocol.Properties.Fuel.{
  Ends, Advances, Advances-bind, Advances-if, slice_from-Ends, ok_or-Ends, index-Ends,
  string_from-Ends, vec_from-Ends, user_property_from-Advances, Advances-map, properties_from-Ends,
}
use ruq.Protocol.Property.{user_property, property_by_id, property_from_mqtt}

by_id-Advances : (id : ℕ) (bytes : Bytes) → Advances (property_by_id id bytes)
unfolding property_by_id
by_id-Advances id bytes =
    Advances-if (id == 0x01) _ _
      (Advances-bind (index bytes 1) _ (index-Ends bytes 1) (λ v. omega arith))
      (Advances-if (id == 0x02) _ _
        (Advances-bind (ok_or not_enough_bytes (get_range bytes 1 5)) _
          (ok_or-Ends _ (get_range bytes 1 5)) (λ v. omega arith))
        (Advances-if (id == 0x08) _ _
          (Advances-bind (slice_from bytes 1) _ (slice_from-Ends bytes 1)
            (λ b. Advances-bind (string_from_mqtt b) _ (string_from-Ends b) (λ s. omega arith)))
          (Advances-if (id == 0x09) _ _
            (Advances-bind (slice_from bytes 1) _ (slice_from-Ends bytes 1)
              (λ b. Advances-bind (vec_from_mqtt b) _ (vec_from-Ends b) (λ s. omega arith)))
            (Advances-if (id == 0x26) _ _
              (Advances-map (user_property_from bytes) (λ kv. user_property kv.0 kv.1)
                (user_property_from-Advances bytes))
              tt))))

property_from-Advances : (bytes : Bytes) → Advances (property_from_mqtt bytes)
unfolding property_from_mqtt
property_from-Advances [] = tt
property_from-Advances (b ∷ bs) = by_id-Advances b (b ∷ bs)

-- Reading the properties of a PUBLISH packet comes back on every input: its loop never runs out of
-- rounds.
pub properties_from_mqtt-out_of_fuel :
    (bytes : Bytes) → properties_from_mqtt property_from_mqtt bytes ≢ out_of_fuel
properties_from_mqtt-out_of_fuel bytes e =
    subst Ends e (properties_from-Ends property_from_mqtt property_from-Advances bytes)
