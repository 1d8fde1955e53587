-- ===== src/Protocol/Properties/Fuel.antt =====
-- The loop that reads a list of properties, src/protocol/properties.rs: its fuel is enough.
use ruq.Base.{
  ℕ, zero, suc, ◌+◌, ◌≤◌, ◌<◌, Bool, true, false, Option, none, some, List, [], ◌∷◌, ◌++◌, length,
  ltb, leb, ◌==◌, ◌&&◌, if◌then◌else◌, Outcome, ok, err, panic, out_of_fuel, ◌>>=◌, arith, slice,
  slice_from, ok_or, get_range, index, drop, length-drop, Bool-cases, inl, inr, checked_mul,
  checked_add, ◌*◌, ◌^◌, bit_and,
}
use ruq.Protocol.{Bytes, ConvertError, Decoded}
use ruq.Protocol.Vbi.{vbi_from_loop, vbi_from_mqtt}
use ruq.Protocol.Text.{is_utf8, len_from_mqtt, string_from_mqtt, vec_from_mqtt}
use ruq.Protocol.Properties.{user_property_from, decode_all, properties_from_mqtt}

-- The code comes back: the fuel did not run out.
abbrev pub Ends : {A : Type 0} → Outcome ConvertError A → Type 0
Ends out_of_fuel = ⊥
Ends _ = Unit

-- And what was read took a byte at least.
abbrev pub Advances : {A : Type 0} → Decoded A → Type 0
Advances (ok (a, n)) = 0 < n
Advances out_of_fuel = ⊥
Advances _ = Unit

pub Ends-bind :
    {A B : Type 0} (m : Outcome ConvertError A) (f : A → Outcome ConvertError B)
    → Ends m
    → ((a : A) → Ends (f a))
    → Ends (m >>= f)
Ends-bind (ok a) f h k = k a
Ends-bind (err e) f h k = tt
Ends-bind panic f h k = tt
Ends-bind out_of_fuel f h k = h

pub Advances-bind :
    {A B : Type 0} (m : Outcome ConvertError A) (f : A → Decoded B)
    → Ends m
    → ((a : A) → Advances (f a))
    → Advances (m >>= f)
Advances-bind (ok a) f h k = k a
Advances-bind (err e) f h k = tt
Advances-bind panic f h k = tt
Advances-bind out_of_fuel f h k = h

pub Advances-map :
    {A B : Type 0} (m : Decoded A) (f : A → B) → Advances m → Advances (m >>= λ x. ok (f x.0, x.1))
Advances-map (ok a) f h = h
Advances-map (err e) f h = tt
Advances-map panic f h = tt
Advances-map out_of_fuel f h = h

pub Ends-if :
    {A : Type 0} (b : Bool) (x y : Outcome ConvertError A)
    → Ends x
    → Ends y
    → Ends (if b then x else y)
Ends-if true x y h k = h
Ends-if false x y h k = k

pub Advances-if :
    {A : Type 0} (b : Bool) (x y : Decoded A)
    → Advances x
    → Advances y
    → Advances (if b then x else y)
Advances-if true x y h k = h
Advances-if false x y h k = k

pub slice_from-Ends : (bytes : Bytes) (n : ℕ) → Ends (slice_from bytes n)
slice_from-Ends bytes n = Ends-if (leb n (length bytes)) _ _ tt tt

pub slice-Ends : (bytes : Bytes) (a b : ℕ) → Ends (slice bytes a b)
slice-Ends bytes a b = Ends-if (leb a b) _ _ (Ends-if (leb b (length bytes)) _ _ tt tt) tt

pub ok_or-Ends : {A : Type 0} (e : ConvertError) (o : Option A) → Ends (ok_or e o)
ok_or-Ends e none = tt
ok_or-Ends e (some a) = tt

pub index-Ends : (bytes : Bytes) (n : ℕ) → Ends (index bytes n)
index-Ends [] n = tt
index-Ends (b ∷ bytes) zero = tt
index-Ends (b ∷ bytes) (suc n) = index-Ends bytes n

checked_mul-Ends : (a b : ℕ) → Ends (checked_mul 32 a b)
checked_mul-Ends a b = Ends-if (ltb (a * b) (2 ^ 32)) _ _ tt tt

checked_add-Ends : (a b : ℕ) → Ends (checked_add 32 a b)
checked_add-Ends a b = Ends-if (ltb (a + b) (2 ^ 32)) _ _ tt tt

pub vbi_from_loop-Ends : (bytes : Bytes) (m value idx : ℕ) → Ends (vbi_from_loop bytes m value idx)
unfolding vbi_from_loop
vbi_from_loop-Ends [] m value idx = tt
vbi_from_loop-Ends (b ∷ bytes) m value idx =
    Ends-bind (checked_mul 32 (bit_and b 127) m) _ (checked_mul-Ends (bit_and b 127) m) (λ digit.
      Ends-bind (checked_add 32 value digit) _ (checked_add-Ends value digit) (λ value'.
        Ends-if (ltb 2097152 m) _ _ tt (
          Ends-bind (checked_mul 32 m 128) _ (checked_mul-Ends m 128) (λ m'.
            Ends-if (bit_and b 128 == 0) _ _ tt (vbi_from_loop-Ends bytes m' value' (idx + 1))))))

len_from-Ends : (bytes : Bytes) → Ends (len_from_mqtt bytes)
unfolding len_from_mqtt
len_from-Ends bytes =
    Ends-bind (ok_or _ (get_range bytes 0 2)) _ (ok_or-Ends _ (get_range bytes 0 2)) (λ two. tt)

pub string_from-Ends : (bytes : Bytes) → Ends (string_from_mqtt bytes)
unfolding string_from_mqtt
string_from-Ends bytes = Ends-bind (len_from_mqtt bytes) _ (len_from-Ends bytes) (λ l.
    Ends-if (ltb 0 l.0 && leb (l.0 + 2) (length bytes)) _ _
      (Ends-bind (slice bytes 2 (2 + l.0)) _ (slice-Ends bytes 2 (2 + l.0))
        (λ s. Ends-if (is_utf8 s) _ _ tt tt))
      (Ends-if (l.0 == 0) _ _ tt tt))

pub vec_from-Ends : (bytes : Bytes) → Ends (vec_from_mqtt bytes)
unfolding vec_from_mqtt
vec_from-Ends bytes = Ends-bind (len_from_mqtt bytes) _ (len_from-Ends bytes) (λ l.
    Ends-if (ltb 0 l.0) _ _
      (Ends-bind (slice bytes 2 (2 + l.0)) _ (slice-Ends bytes 2 (2 + l.0)) (λ v. tt)) tt)

pub user_property_from-Ends : (bytes : Bytes) → Ends (user_property_from bytes)
unfolding user_property_from
user_property_from-Ends bytes =
    Ends-bind (slice_from bytes 1) _ (slice_from-Ends bytes 1) (λ at_key.
      Ends-bind (string_from_mqtt at_key) _ (string_from-Ends at_key) (λ k.
        Ends-bind (slice_from bytes (k.1 + 1)) _ (slice_from-Ends bytes (k.1 + 1)) (λ at_value.
          Ends-bind (string_from_mqtt at_value) _ (string_from-Ends at_value) (λ v. tt))))

pub user_property_from-Advances : (bytes : Bytes) → Advances (user_property_from bytes)
unfolding user_property_from
user_property_from-Advances bytes =
    Advances-bind (slice_from bytes 1) _ (slice_from-Ends bytes 1) (λ at_key.
      Advances-bind (string_from_mqtt at_key) _ (string_from-Ends at_key) (λ k.
        Advances-bind (slice_from bytes (k.1 + 1)) _ (slice_from-Ends bytes (k.1 + 1)) (λ at_value.
          Advances-bind (string_from_mqtt at_value) _ (string_from-Ends at_value)
            (λ v. omega arith))))

module _ {P : Type 0} (property_from : Bytes → Decoded P)
    (advances : (bytes : Bytes) → Advances (property_from bytes)) where
  decode_step-Ends :
      (fuel : ℕ) (bytes : Bytes) (acc : List P) (r : Decoded P)
      → ((rest : Bytes) (ps : List P)
          → length rest ≤ fuel
          → Ends (decode_all property_from fuel rest ps))
      → Advances r
      → length bytes ≤ suc fuel
      → Ends (
          r >>= λ a.
          slice_from bytes a.1 >>= λ rest. decode_all property_from fuel rest (acc ++ (a.0 ∷ [])))
  decode_step-Ends fuel bytes acc (ok (p, n)) more pos le =
      elim (Bool-cases (leb n (length bytes))) [
        | inl inside ↦
            rw inside (more (drop n bytes) (acc ++ (p ∷ [])) (omega (arith, length-drop n bytes)))
        | inr outside ↦ rw outside tt
      ]
  decode_step-Ends fuel bytes acc (err e) more pos le = tt
  decode_step-Ends fuel bytes acc panic more pos le = tt
  decode_step-Ends fuel bytes acc out_of_fuel more pos le = pos

  decode_all-Ends :
      (fuel : ℕ) (bytes : Bytes) (acc : List P)
      → length bytes ≤ fuel
      → Ends (decode_all property_from fuel bytes acc)
  unfolding decode_all
  decode_all-Ends zero [] acc le = tt
  decode_all-Ends (suc fuel) [] acc le = tt
  decode_all-Ends zero (b ∷ bs) acc le = absurd (omega arith)
  decode_all-Ends (suc fuel) (b ∷ bs) acc le =
      decode_step-Ends fuel (b ∷ bs) acc (property_from (b ∷ bs)) (decode_all-Ends fuel)
        (advances (b ∷ bs)) le

  -- If reading one property takes a byte at least where it succeeds, reading a list of them comes
  -- back on every input: as many rounds as there are bytes are enough.
  pub properties_from-Ends : (bytes : Bytes) → Ends (properties_from_mqtt property_from bytes)
  unfolding properties_from_mqtt vbi_from_mqtt
  properties_from-Ends bytes =
      Ends-bind (vbi_from_mqtt bytes) _ (vbi_from_loop-Ends bytes 1 0 0) (λ l.
        Ends-if (l.0 == 0) _ _ tt (
          Ends-bind (slice bytes l.1 (l.1 + l.0)) _ (slice-Ends bytes l.1 (l.1 + l.0)) (λ body.
            Ends-bind (decode_all property_from (length body) body []) _
              (decode_all-Ends (length body) body [] (omega arith)) (λ ps. tt))))
