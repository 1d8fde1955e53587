-- ===== src/Protocol/Properties/Laws.antt =====
-- A list of properties is read back where each property is.
use ruq.Base.{
  ℕ, zero, suc, ◌+◌, ◌%◌, ◌^◌, ◌≤◌, ◌<◌, ◌≡◌, refl, ap, ◌∙◌, true, List, [], ◌∷◌, ◌++◌, arith,
  length, length-append, drop, drop-append_eq, append-nil, append_assoc, ok, All, Bool-cases, ◌==◌,
  inl, inr, slice-append,
}
use ruq.Protocol.{Bytes, ConvertError, Decoded, Reads}
use ruq.Protocol.Vbi.{vbi_to_mqtt}
use ruq.Protocol.Vbi.RoundTrip.{vbi_from-vbi_to}
use ruq.Protocol.Text.{text_to_mqtt, is_utf8}
use ruq.Protocol.Text.Laws.{string_from-text_to}
use ruq.Protocol.Properties.{
  user_property_to, user_property_from, encode_all, properties_to_mqtt, decode_all,
  properties_from_mqtt,
}

-- A string that the encoder does not cut.
pub record IsText (s : Bytes) : Type 0 where
  pub short : length s < 2 ^ 16
  pub valid : is_utf8 s ≡ true

pub user_property_from-to :
    (b : ℕ) (k v rest : Bytes)
    → IsText k
    → IsText v
    → user_property_from (b ∷ (user_property_to k v ++ rest))
      ≡ ok ((k, v), length (user_property_to k v) + 1)
unfolding user_property_from user_property_to
user_property_from-to b k v rest hk hv = ground (
  arith,
  append_assoc (text_to_mqtt k) (text_to_mqtt v) rest,
  string_from-text_to k hk.short hk.valid (text_to_mqtt v ++ rest),
  string_from-text_to v hv.short hv.valid rest,
  length-append (text_to_mqtt k) (text_to_mqtt v),
  length-append (text_to_mqtt k) (text_to_mqtt v ++ rest),
  drop-append_eq (length (text_to_mqtt k)) (text_to_mqtt k) (text_to_mqtt v ++ rest) refl,
)

module _ {P : Type 0} (property_to : P → Bytes) (property_from : Bytes → Decoded P) where
  -- The property is read back, and its encoding is not empty.
  pub record IsReadBack (p : P) : Type 0 where
    pub reads : Reads property_from (property_to p) p
    pub not_empty : 0 < length (property_to p)

  decode_all_step :
      (fuel : ℕ) (bytes : Bytes) (acc : List P) (p : P) (n : ℕ)
      → property_from bytes ≡ ok (p, n)
      → n ≤ length bytes
      → 0 < length bytes
      → decode_all property_from (suc fuel) bytes acc
        ≡ decode_all property_from fuel (drop n bytes) (acc ++ (p ∷ []))
  unfolding decode_all
  decode_all_step fuel [] acc p n e le pos = absurd (omega arith)
  decode_all_step fuel (b ∷ bs) acc p n e le pos = ground arith

  decode_all-encode_all :
      (ps : List P) (fuel : ℕ) (acc : List P)
      → All IsReadBack ps
      → length (encode_all property_to ps) ≤ fuel
      → decode_all property_from fuel (encode_all property_to ps) acc ≡ ok (acc ++ ps)
  unfolding encode_all
  decode_all-encode_all [] fuel acc h hf = rw append-nil (unfold decode_all in refl)
  decode_all-encode_all (p ∷ ps) zero acc (h, hs) hf =
      absurd (omega (arith, h.not_empty, length-append (property_to p) (encode_all property_to ps)))
  decode_all-encode_all (p ∷ ps) (suc fuel) acc (h, hs) hf =
      let enc = property_to p in
      let more = encode_all property_to ps in
      let len : length (enc ++ more) ≡ length enc + length more = length-append enc more in
      decode_all_step fuel (enc ++ more) acc p (length enc) (h.reads more) (omega arith)
        (omega (arith, h.not_empty))
      ∙ rw (drop-append_eq (length enc) enc more refl)
          (decode_all-encode_all ps fuel (acc ++ (p ∷ [])) hs (omega (arith, h.not_empty)))
      ∙ ap ok (append_assoc acc (p ∷ []) ps)

  empty : (ps : List P) → All IsReadBack ps → length (encode_all property_to ps) ≡ 0 → ps ≡ []
  unfolding encode_all
  empty [] hs e = refl
  empty (p ∷ ps) (h, hs) e =
      absurd (omega (arith, h.not_empty, length-append (property_to p) (encode_all property_to ps)))

  properties_from_body :
      (body rest : Bytes) (ps : List P)
      → length body < 2 ^ 28
      → decode_all property_from (length body) body [] ≡ ok ps
      → (length body ≡ 0 → ps ≡ [])
      → properties_from_mqtt property_from (vbi_to_mqtt (length body) ++ (body ++ rest))
        ≡ ok (ps, length (vbi_to_mqtt (length body)) + length body)
  unfolding properties_from_mqtt
  properties_from_body body rest ps short all empty =
      let len = vbi_to_mqtt (length body) in
      rw (vbi_from-vbi_to (length body) (body ++ rest) short)
        (elim (Bool-cases (length body == 0)) [
          | inl none_left ↦ ground (arith, none_left)
          | inr some_left ↦ rw some_left (
              rw
                (slice-append {E = ConvertError} len body rest (length len)
                  (length len + length body) refl refl)
                (rw all refl))
        ])

  -- If each property of a list is read back from an encoding that is not empty, and the encodings
  -- together are below 2 ^ 28 bytes, the list is read back, whatever follows.
  pub properties_from-properties_to :
      (ps : List P)
      → All IsReadBack ps
      → length (encode_all property_to ps) < 2 ^ 28
      → Reads (properties_from_mqtt property_from) (properties_to_mqtt property_to ps) ps
  unfolding properties_to_mqtt
  properties_from-properties_to ps hs short rest =
      let body = encode_all property_to ps in
      let fits : length body % 2 ^ 32 ≡ length body = omega arith in
      rw fits (
        rw (append_assoc (vbi_to_mqtt (length body)) body rest) (
          rw (length-append (vbi_to_mqtt (length body)) body) (
            properties_from_body body rest ps short
              (decode_all-encode_all ps (length body) [] hs (omega arith)) (empty ps hs))))
