-- ===== src/Protocol/Typed/Properties.antt =====
-- The readers of properties in src/protocol give values of their Rust types.
use ruq.Base.{
  ℕ, zero, suc, ◌+◌, Option, none, some, [], ◌∷◌, ◌++◌, All, ◌==◌, leb, ok, ◌>>=◌, get_from,
  get_range, slice_from, length, Bool-cases, inl, inr,
}
use ruq.Base.Gives.{Gives, Gives-ok, Gives-err, Gives-fuel, Gives-if, Gives-any, Gives-then}
use ruq.Protocol.{Bytes}
use ruq.Protocol.Text.{string_from_mqtt, vec_from_mqtt}
use ruq.Protocol.Vbi.{vbi_from_mqtt}
use ruq.Protocol.Properties.{user_property_from}
use ruq.Protocol.Property.{Property, property_from_mqtt}
use ruq.Protocol.Ack
use ruq.Protocol.Disconnect
use ruq.Protocol.Ack.{AckProperty, ack_property_from_mqtt, ack_properties_from_mqtt}
use ruq.Protocol.Ack.Puback.{
  PubackProperties, no_properties, read_property, read_properties, puback_properties_from_mqtt,
}
use ruq.Protocol.Disconnect.{
  DisconnectProperty, disconnect_property_from_mqtt, disconnect_properties_from_mqtt,
}
use ruq.Protocol.Typed.{
  AreBytes, IsString, IsTypedProperty, IsTypedAck, IsTypedDisconnect, AreOptionalBytes,
  IsTypedPuback,
}
use ruq.Protocol.Typed.Parts.{
  take-AreBytes, drop-AreBytes, slice_from-AreBytes, index-IsByte, get_range-IsField, from_be-four,
  string_from-IsString, vec_from-AreBytes, user_property_from-IsString, properties_from-All,
  append-All,
}

-- The text, or the pair of texts, that stands behind the identifier.
text-IsString :
    {P : Type 0} (Q : P → Type 0) (f : Bytes → P) (bs : Bytes)
    → AreBytes bs
    → ((s : Bytes) → IsString s → Q (f s))
    → Gives {A = P × ℕ}
        (λ r. Q r.0)
        (do (s, n) ← string_from_mqtt (← slice_from bs 1); ok (f s, n + 1))
text-IsString Q f bs h k =
    Gives-then (slice_from-AreBytes bs 1 h)
      (λ b hb. Gives-then (string_from-IsString b hb) (λ s hs. Gives-ok _ (k s.0 hs)))

pair-IsString :
    {P : Type 0} (Q : P → Type 0) (f : Bytes → Bytes → P) (bs : Bytes)
    → AreBytes bs
    → ((k v : Bytes) → IsString k × IsString v → Q (f k v))
    → Gives {A = P × ℕ} (λ r. Q r.0) (do ((k, v), n) ← user_property_from bs; ok (f k v, n))
pair-IsString Q f bs h k =
    Gives-then (user_property_from-IsString bs h) (λ r hr. Gives-ok _ (k r.0.0 r.0.1 hr))

vec-AreBytes :
    (bs : Bytes)
    → AreBytes bs
    → Gives {A = Property × ℕ}
        (λ r. IsTypedProperty r.0)
        (do (s, n) ← vec_from_mqtt (← slice_from bs 1); ok (Property.correlation_data s, n + 1))
vec-AreBytes bs h =
    Gives-then (slice_from-AreBytes bs 1 h)
      (λ b hb. Gives-then (vec_from-AreBytes b hb) (λ s hs. Gives-ok _ hs))

pub property_from-IsTyped :
    (bs : Bytes) → AreBytes bs → Gives (λ r. IsTypedProperty r.0) (property_from_mqtt bs)
unfolding property_from_mqtt
property_from-IsTyped [] h = Gives-err _
property_from-IsTyped (b ∷ bs) h =
    Gives-if (b == 0x01) _ _ (Gives-then (index-IsByte (b ∷ bs) 1 h) (λ v hv. Gives-ok _ hv)) (
      Gives-if (b == 0x02) _ _
        (Gives-then (get_range-IsField _ (b ∷ bs) 1 5 h)
          (λ four hf. Gives-ok _ (from_be-four four hf)))
        (Gives-if (b == 0x08) _ _
          (text-IsString IsTypedProperty Property.response_topic (b ∷ bs) h (λ s hs. hs))
          (Gives-if (b == 0x09) _ _ (vec-AreBytes (b ∷ bs) h) (
            Gives-if (b == 0x26) _ _
              (pair-IsString IsTypedProperty Property.user_property (b ∷ bs) h (λ k v hkv. hkv))
              (Gives-err _)))))

ack_property_from-IsTyped :
    (bs : Bytes) → AreBytes bs → Gives (λ r. IsTypedAck r.0) (ack_property_from_mqtt bs)
unfolding ack_property_from_mqtt
ack_property_from-IsTyped [] h = Gives-err _
ack_property_from-IsTyped (b ∷ bs) h =
    Gives-if (b == 0x1f) _ _ (text-IsString IsTypedAck Ack.reason_string (b ∷ bs) h (λ s hs. hs)) (
      Gives-if (b == 0x26) _ _
        (pair-IsString IsTypedAck Ack.user_property (b ∷ bs) h (λ k v hkv. hkv)) (Gives-err _))

pub ack_properties_from-IsTyped :
    (bs : Bytes) → AreBytes bs → Gives (λ r. All IsTypedAck r.0) (ack_properties_from_mqtt bs)
unfolding ack_properties_from_mqtt
ack_properties_from-IsTyped =
    properties_from-All ack_property_from_mqtt IsTypedAck ack_property_from-IsTyped

disconnect_property_from-IsTyped :
    (bs : Bytes)
    → AreBytes bs
    → Gives (λ r. IsTypedDisconnect r.0) (disconnect_property_from_mqtt bs)
unfolding disconnect_property_from_mqtt
disconnect_property_from-IsTyped [] h = Gives-err _
disconnect_property_from-IsTyped (b ∷ bs) h = Gives-if (b == 0x11) _ _ (Gives-err _) (
    Gives-if (b == 0x1f) _ _
      (text-IsString IsTypedDisconnect Disconnect.reason_string (b ∷ bs) h (λ s hs. hs))
      (Gives-if (b == 0x26) _ _
        (pair-IsString IsTypedDisconnect Disconnect.user_property (b ∷ bs) h (λ k v hkv. hkv))
        (Gives-err _)))

pub disconnect_properties_from-IsTyped :
    (bs : Bytes)
    → AreBytes bs
    → Gives (λ r. All IsTypedDisconnect r.0) (disconnect_properties_from_mqtt bs)
unfolding disconnect_properties_from_mqtt
disconnect_properties_from-IsTyped =
    properties_from-All disconnect_property_from_mqtt IsTypedDisconnect
      disconnect_property_from-IsTyped

-- The property list of a PUBACK.
read_property-IsTyped :
    (bs : Bytes) (p : PubackProperties)
    → AreBytes bs
    → IsTypedPuback p
    → Gives (λ r. IsTypedPuback r.0) (read_property bs p)
unfolding read_property
read_property-IsTyped [] p h k = Gives-err _
read_property-IsTyped (b ∷ bs) p h k =
    Gives-if (b == 0x1f) _ _
      (text-IsString IsTypedPuback (λ s. record p { reason_string = some s }) (b ∷ bs) h
        (λ s hs. record { reason_string = hs; user_properties = k.user_properties }))
      (Gives-if (b == 0x26) _ _
        (pair-IsString IsTypedPuback
          (λ key v. record p { user_properties = p.user_properties ++ ((key, v) ∷ []) }) (b ∷ bs) h
          (λ key v hkv. record {
            reason_string = k.reason_string;
            user_properties =
                append-All _ p.user_properties ((key, v) ∷ []) k.user_properties (hkv, tt);
          }))
        (Gives-err _))

get_from-AreBytes : (bs : Bytes) (n : ℕ) → AreBytes bs → AreOptionalBytes (get_from bs n)
get_from-AreBytes bs n h = elim (Bool-cases (leb n (length bs))) [
  | inl inside ↦ rw inside (drop-AreBytes n bs h)
  | inr out ↦ rw out tt
]

get_range-AreBytes : (bs : Bytes) (a b : ℕ) → AreBytes bs → AreOptionalBytes (get_range bs a b)
get_range-AreBytes bs a b h = elim (Bool-cases (leb a b)) [
  | inr out ↦ rw out tt
  | inl inside ↦ elim (Bool-cases (leb b (length bs))) [
    | inr out ↦ rw (inside, out) tt
    | inl whole ↦ rw (inside, whole) (take-AreBytes _ _ (drop-AreBytes a bs h))
  ]
]

read_properties-IsTyped :
    (fuel : ℕ) (o : Option Bytes) (p : PubackProperties)
    → AreOptionalBytes o
    → IsTypedPuback p
    → Gives IsTypedPuback (read_properties fuel o p)
unfolding read_properties
read_properties-IsTyped fuel none p h k = Gives-ok p k
read_properties-IsTyped zero (some bs) p h k = Gives-fuel
read_properties-IsTyped (suc fuel) (some bs) p h k =
    Gives-then (read_property-IsTyped bs p h k) (λ r hr.
      read_properties-IsTyped fuel (get_from bs (r.1 + 1)) r.0 (get_from-AreBytes bs (r.1 + 1) h)
        hr)

pub none-IsTyped : IsTypedPuback no_properties
none-IsTyped = record { reason_string = tt; user_properties = tt }

pub puback_properties_from-IsTyped :
    (bs : Bytes) → AreBytes bs → Gives (λ r. IsTypedPuback r.0) (puback_properties_from_mqtt bs)
unfolding puback_properties_from_mqtt
puback_properties_from-IsTyped bs h = Gives-then (Gives-any (vbi_from_mqtt bs)) (λ l _.
    Gives-if (l.0 == 0) _ _ (Gives-ok _ none-IsTyped) (
      Gives-then
        (read_properties-IsTyped (l.0 + 1) (get_range bs l.1 (l.1 + l.0)) no_properties
          (get_range-AreBytes bs l.1 (l.1 + l.0) h) none-IsTyped)
        (λ p hp. Gives-ok _ hp)))
