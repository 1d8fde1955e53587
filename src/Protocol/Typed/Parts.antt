-- ===== src/Protocol/Typed/Parts.antt =====
-- The readers of src/protocol/mod.rs on bytes: numbers and texts in the ranges of their Rust types.
use ruq.Base.{
  ℕ, zero, suc, ◌+◌, ◌-◌, ◌^◌, ◌<◌, ◌≤◌, refl, List, [], ◌∷◌, ◌++◌, All, ◌&&◌, ◌==◌, arith, length,
  take, drop, leb, ltb, index, slice, slice_from, get_range, ok_or, Bool-cases, inl, inr,
}
use ruq.Base.Gives.{
  Gives, Gives-ok, Gives-err, Gives-panic, Gives-fuel, Gives-if, Gives-any, Gives-then,
}
use ruq.Protocol.{Bytes, IsByte, ConvertError, Decoded}
use ruq.Protocol.Text.{is_utf8, from_be, len_from_mqtt, string_from_mqtt, vec_from_mqtt}
use ruq.Protocol.PktId.{IsPktId, pktid_from_mqtt}
use ruq.Protocol.Properties.{user_property_from, decode_all, properties_from_mqtt}
use ruq.Protocol.Vbi.{vbi_from_mqtt}
use ruq.Protocol.Typed.{AreBytes, IsString}

pub take-AreBytes : (n : ℕ) (bs : Bytes) → AreBytes bs → AreBytes (take n bs)
take-AreBytes zero bs h = tt
take-AreBytes (suc n) [] h = tt
take-AreBytes (suc n) (b ∷ bs) (h, hs) = (h, take-AreBytes n bs hs)

pub drop-AreBytes : (n : ℕ) (bs : Bytes) → AreBytes bs → AreBytes (drop n bs)
drop-AreBytes zero bs h = h
drop-AreBytes (suc n) [] h = tt
drop-AreBytes (suc n) (b ∷ bs) (h, hs) = drop-AreBytes n bs hs

module _ {E : Type 0} where
  pub slice_from-AreBytes :
      (bs : Bytes) (n : ℕ) → AreBytes bs → Gives {E = E} AreBytes (slice_from bs n)
  slice_from-AreBytes bs n h =
      Gives-if (leb n (length bs)) _ _ (Gives-ok _ (drop-AreBytes n bs h)) Gives-panic

  pub slice-AreBytes : (bs : Bytes) (a b : ℕ) → AreBytes bs → Gives {E = E} AreBytes (slice bs a b)
  slice-AreBytes bs a b h =
      Gives-if (leb a b) _ _
        (Gives-if (leb b (length bs)) _ _ (Gives-ok _ (take-AreBytes _ _ (drop-AreBytes a bs h)))
          Gives-panic)
        Gives-panic

  pub index-IsByte : (bs : Bytes) (n : ℕ) → AreBytes bs → Gives {E = E} IsByte (index bs n)
  index-IsByte [] n h = Gives-panic
  index-IsByte (b ∷ bs) zero (h, hs) = Gives-ok b h
  index-IsByte (b ∷ bs) (suc n) (h, hs) = index-IsByte bs n hs

-- The bytes of a field of `n` bytes, if they are there.
abbrev pub IsField : ℕ → Bytes → Type 0
IsField n bs = AreBytes bs × (length bs ≤ n)

length-take-le : (n : ℕ) (bs : Bytes) → length (take n bs) ≤ n
length-take-le zero bs = omega arith
length-take-le (suc n) [] = omega arith
length-take-le (suc n) (b ∷ bs) = omega (arith, length-take-le n bs)

pub get_range-IsField :
    (e : ConvertError) (bs : Bytes) (a b : ℕ)
    → AreBytes bs
    → Gives (IsField (b - a)) (ok_or e (get_range bs a b))
get_range-IsField e bs a b h = elim (Bool-cases (leb a b)) [
  | inr out ↦ rw out (Gives-err e)
  | inl inside ↦ elim (Bool-cases (leb b (length bs))) [
    | inr out ↦ rw (inside, out) (Gives-err e)
    | inl whole ↦
        rw (inside, whole)
          (Gives-ok _
            (take-AreBytes _ _ (drop-AreBytes a bs h), length-take-le (b - a) (drop a bs)))
  ]
]

from_be-two : (bs : Bytes) → IsField 2 bs → from_be bs < 2 ^ 16
from_be-two [] h = omega arith
from_be-two (a ∷ []) h = ground arith
from_be-two (a ∷ b ∷ []) h = ground arith
from_be-two (a ∷ b ∷ c ∷ bs) (h, le) = absurd (omega arith)

pub from_be-four : (bs : Bytes) → IsField 4 bs → from_be bs < 2 ^ 32
from_be-four [] h = omega arith
from_be-four (a ∷ []) h = ground arith
from_be-four (a ∷ b ∷ []) h = ground arith
from_be-four (a ∷ b ∷ c ∷ []) h = ground arith
from_be-four (a ∷ b ∷ c ∷ d ∷ []) h = ground arith
from_be-four (a ∷ b ∷ c ∷ d ∷ e ∷ bs) (h, le) = absurd (omega arith)

pub pktid_from-IsPktId : (bs : Bytes) → AreBytes bs → Gives (λ r. IsPktId r.0) (pktid_from_mqtt bs)
unfolding pktid_from_mqtt
pktid_from-IsPktId bs h = Gives-then (get_range-IsField _ bs 0 2 h) (λ two field.
    elim (Bool-cases (from_be two == 0)) [
      | inl z ↦ rw z (Gives-err _)
      | inr nz ↦ rw nz (Gives-ok _ (ground (arith, from_be-two two field)))
    ])

empty-IsString : IsString []
unfolding is_utf8
empty-IsString = (tt, refl)

pub string_from-IsString :
    (bs : Bytes) → AreBytes bs → Gives (λ r. IsString r.0) (string_from_mqtt bs)
unfolding string_from_mqtt
string_from-IsString bs h = Gives-then (Gives-any (len_from_mqtt bs)) (λ l _.
    Gives-if (ltb 0 l.0 && leb (l.0 + 2) (length bs)) _ _
      (Gives-then (slice-AreBytes bs 2 (2 + l.0) h) (λ s hs. elim (Bool-cases (is_utf8 s)) [
        | inl valid ↦ rw valid (Gives-ok _ (hs, valid))
        | inr broken ↦ rw broken (Gives-err _)
      ]))
      (Gives-if (l.0 == 0) _ _ (Gives-ok _ empty-IsString) (Gives-err _)))

pub vec_from-AreBytes : (bs : Bytes) → AreBytes bs → Gives (λ r. AreBytes r.0) (vec_from_mqtt bs)
unfolding vec_from_mqtt
vec_from-AreBytes bs h = Gives-then (Gives-any (len_from_mqtt bs)) (λ l _.
    Gives-if (ltb 0 l.0) _ _ (Gives-then (slice-AreBytes bs 2 (2 + l.0) h) (λ v hv. Gives-ok _ hv))
      (Gives-ok _ tt))

pub user_property_from-IsString :
    (bs : Bytes)
    → AreBytes bs
    → Gives (λ r. IsString r.0.0 × IsString r.0.1) (user_property_from bs)
unfolding user_property_from
user_property_from-IsString bs h = Gives-then (slice_from-AreBytes bs 1 h) (λ at_key hk.
    Gives-then (string_from-IsString at_key hk) (λ k hks.
      Gives-then (slice_from-AreBytes bs (k.1 + 1) h) (λ at_value hv.
        Gives-then (string_from-IsString at_value hv) (λ v hvs. Gives-ok _ (hks, hvs)))))

pub append-All :
    {A : Type 0} (Q : A → Type 0) (xs ys : List A) → All Q xs → All Q ys → All Q (xs ++ ys)
append-All Q [] ys h k = k
append-All Q (x ∷ xs) ys (h, hs) k = (h, append-All Q xs ys hs k)

module _ {P : Type 0} (property_from : Bytes → Decoded P) (Q : P → Type 0)
    (each : (bs : Bytes) → AreBytes bs → Gives (λ r. Q r.0) (property_from bs)) where
  decode_all-All :
      (fuel : ℕ) (bs : Bytes) (ps : List P)
      → AreBytes bs
      → All Q ps
      → Gives (All Q) (decode_all property_from fuel bs ps)
  unfolding decode_all
  decode_all-All zero [] ps h k = Gives-ok ps k
  decode_all-All (suc fuel) [] ps h k = Gives-ok ps k
  decode_all-All zero (b ∷ bs) ps h k = Gives-fuel
  decode_all-All (suc fuel) (b ∷ bs) ps h k = Gives-then (each (b ∷ bs) h) (λ r hr.
      Gives-then (slice_from-AreBytes (b ∷ bs) r.1 h) (λ rest hs.
        decode_all-All fuel rest (ps ++ (r.0 ∷ [])) hs (append-All Q ps (r.0 ∷ []) k (hr, tt))))

  pub properties_from-All :
      (bs : Bytes) → AreBytes bs → Gives (λ r. All Q r.0) (properties_from_mqtt property_from bs)
  unfolding properties_from_mqtt
  properties_from-All bs h = Gives-then (Gives-any (vbi_from_mqtt bs)) (λ l _.
      Gives-if (l.0 == 0) _ _ (Gives-ok _ tt) (
        Gives-then (slice-AreBytes bs l.1 (l.1 + l.0) h) (λ body hb.
          Gives-then (decode_all-All (length body) body [] hb tt) (λ ps hp. Gives-ok _ hp))))
