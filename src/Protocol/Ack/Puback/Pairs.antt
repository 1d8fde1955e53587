-- ===== src/Protocol/Ack/Puback/Pairs.antt =====
-- src/protocol/puback.rs: the reader of the properties of a PUBACK packet on one user property and on
-- two.
use ruq.Base.{
  suc, ◌+◌, ◌^◌, ◌<◌, ◌≡◌, refl, ◌∙◌, false, none, some, [], ◌∷◌, ◌++◌, arith, length,
  length-append, append_assoc, append-nil, ok, err, ◌==◌, ◌>>=◌, bind_step, else_step,
  get_range-append, get_from_behind, get_from_second,
}
use ruq.Protocol.{Bytes, other, property_not_implemented}
use ruq.Protocol.Vbi.{vbi_to_mqtt}
use ruq.Protocol.Vbi.RoundTrip.{vbi_from-vbi_to}
use ruq.Protocol.Text.{text_to_mqtt}
use ruq.Protocol.Properties.{user_property_to}
use ruq.Protocol.Properties.Laws.{IsText, user_property_from-to}
use ruq.Protocol.Ack.Puback.{
  PubackProperties, no_properties, read_property, read_properties, puback_properties_from_mqtt,
}

-- A user property as the standard has it, and properties behind their length.
abbrev pub pair : Bytes → Bytes → Bytes
pair k v = 0x26 ∷ user_property_to k v

abbrev pub behind_length : Bytes → Bytes
behind_length b = vbi_to_mqtt (length b) ++ b

pub length-pair : (k v : Bytes) → length (pair k v) ≡ length k + length v + 5
unfolding user_property_to text_to_mqtt
length-pair k v = omega (arith, length-append (text_to_mqtt k) (text_to_mqtt v))

read_property-pair :
    (k v rest : Bytes) (ps : PubackProperties)
    → IsText k
    → IsText v
    → read_property (pair k v ++ rest) ps
      ≡ ok (record ps { user_properties = ps.user_properties ++ ((k, v) ∷ []) }, length (pair k v))
unfolding read_property
read_property-pair k v rest ps hk hv =
    bind_step _ _ (user_property_from-to 0x26 k v rest hk hv) (ground arith)

-- The loop starts with just the bytes behind the length.
started :
    (b rest : Bytes)
    → 0 < length b
    → length b < 2 ^ 28
    → puback_properties_from_mqtt (behind_length b ++ rest) ≡ (
        read_properties (suc (length b)) (some b) no_properties >>= λ ps.
        ok (ps, length (vbi_to_mqtt (length b)) + length b))
unfolding puback_properties_from_mqtt
started b rest h fits =
    let len = vbi_to_mqtt (length b) in
    let more : length b + 1 ≡ suc (length b) = omega arith in
    let not_empty : length b == 0 ≡ false = ground arith in
    rw (append_assoc len b rest) (
      bind_step _ _ (vbi_from-vbi_to (length b) (b ++ rest) fits) (
        else_step _ _ _ not_empty (
          rw (get_range-append len b rest (length len) (length len + length b) refl refl, more)
            refl)))

-- The property block of a PUBACK, made of one user property with valid texts shorter than 2 ^ 16 bytes,
-- is read by the reader of properties as it was written, whatever follows, and counted in full.
pub puback_properties_from-pair :
    (k v rest : Bytes)
    → IsText k
    → IsText v
    → puback_properties_from_mqtt (behind_length (pair k v) ++ rest)
      ≡ ok (
        record { reason_string = none; user_properties = (k, v) ∷ [] },
        length (behind_length (pair k v)),
      )
unfolding read_properties
puback_properties_from-pair k v rest hk hv =
    let u = pair k v in
    let len = vbi_to_mqtt (length u) in
    let one : PubackProperties = record { reason_string = none; user_properties = (k, v) ∷ [] } in
    let read : read_properties (suc (length u)) (some u) no_properties ≡ ok one =
      bind_step _ _ (rw append-nil at (read_property-pair k v [] no_properties hk hv))
        (rw (get_from_behind u (length u + 1) refl) refl) in
    started u rest (omega arith) (omega (arith, length-pair k v, hk.short, hv.short))
    ∙ rw (read, length-append len u) refl

-- The length of the key of a user property, below 256, begins with a zero, which is no property.
refused :
    (k v : Bytes) (ps : PubackProperties)
    → length k < 256
    → read_property (user_property_to k v) ps ≡ err (other (property_not_implemented 0))
unfolding read_property user_property_to text_to_mqtt
refused k v ps short = ground arith

-- The reader starts one byte late on whatever follows the first property: of two user properties
-- with valid texts shorter than 2 ^ 16 bytes, the key of the second shorter than 256, it makes an error.
pub puback_second_refused :
    (k v k' v' rest : Bytes)
    → IsText k
    → IsText v
    → IsText v'
    → length k' < 256
    → puback_properties_from_mqtt (behind_length (pair k v ++ pair k' v') ++ rest)
      ≡ err (other (property_not_implemented 0))
unfolding read_properties
puback_second_refused k v k' v' rest hk hv hv' short =
    let u = pair k v in
    let b = u ++ pair k' v' in
    let long = length-append u (pair k' v') in
    let stops : read_properties (suc (length b)) (some b) no_properties
        ≡ err (other (property_not_implemented 0)) =
      bind_step _ _ (read_property-pair k v (pair k' v') no_properties hk hv) (
        rw (get_from_second u (user_property_to k' v') 0x26 (length u + 1) refl) (
          rw (refused k' v' (record no_properties { user_properties = (k, v) ∷ [] }) short)
            refl)) in
    started b rest (omega arith)
      (omega (arith, long, length-pair k v, length-pair k' v', hk.short, hv.short, hv'.short))
    ∙ rw stops refl
