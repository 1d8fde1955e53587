-- ===== src/Protocol/Vbi/Decode.antt =====
-- `VBI::convert_from_mqtt` on any bytes.
use ruq.Base.{
  ℕ, bit_and, inr, err, ◌+◌, ◌*◌, ◌%◌, ◌^◌, ◌≤◌, ◌<◌, ◌≡◌, refl, ◌⊎◌, [], ◌∷◌, ◌++◌, arith, length,
  All, ok,
}
use ruq.Base.Bits.{bit_and-127, bit_and-128}
use ruq.Protocol.{Bytes, IsByte, not_enough_bytes}
use ruq.Protocol.Vbi.{vbi_from_loop, vbi_from_mqtt}

-- One round on a byte without the continuation bit, and on one with it over the digit `d`.
pub vbi_from_loop_last :
    (d m value idx : ℕ) (rest : Bytes)
    → d < 128
    → m ≤ 2097152
    → value + d * m < 2 ^ 32
    → vbi_from_loop (d ∷ rest) m value idx ≡ ok (value + d * m, idx + 1)
unfolding vbi_from_loop
vbi_from_loop_last d m value idx rest hd hm hv = ground (arith, bit_and-127 d, bit_and-128 d)

pub vbi_from_loop_more :
    (d m value idx : ℕ) (rest : Bytes)
    → d < 128
    → m ≤ 2097152
    → value + d * m < 2 ^ 32
    → vbi_from_loop ((d + 128) ∷ rest) m value idx
      ≡ vbi_from_loop rest (m * 128) (value + d * m) (idx + 1)
unfolding vbi_from_loop
vbi_from_loop_more d m value idx rest hd hm hv =
    ground (arith, bit_and-127 (d + 128), bit_and-128 (d + 128))

-- The multiplier after `j` rounds.
abbrev Stage : ℕ → ℕ → Type 0
Stage j m =
    (j ≡ 0) × (m ≡ 1)
    ⊎ (j ≡ 1) × (m ≡ 128)
    ⊎ (j ≡ 2) × (m ≡ 16384)
    ⊎ (j ≡ 3) × (m ≡ 2097152)
    ⊎ (j ≡ 4) × (m ≡ 268435456)

vbi_from_loop-ok :
    (bytes : Bytes) (j m value v n : ℕ)
    → All IsByte bytes
    → Stage j m
    → value < m
    → vbi_from_loop bytes m value j ≡ ok (v, n)
    → (v < 2 ^ 28) × (j < n) × (n ≤ 4) × (n ≤ length bytes + j)
unfolding vbi_from_loop
vbi_from_loop-ok [] j m value v n hb st hv e = cc
vbi_from_loop-ok (b ∷ bytes) j m value v n (hb, hbs) st hv e =
    ground
      (arith, bit_and-127 b, vbi_from_loop-ok bytes (j + 1) (m * 128) (value + b % 128 * m) v n)

-- On bytes, a success reads 1 to 4 of them and returns a value below 2 ^ 28.
pub vbi_from-ok :
    (bytes : Bytes) (v n : ℕ)
    → All IsByte bytes
    → vbi_from_mqtt bytes ≡ ok (v, n)
    → (v < 2 ^ 28) × (0 < n) × (n ≤ 4) × (n ≤ length bytes)
unfolding vbi_from_mqtt
vbi_from-ok bytes v n hb e = ground (arith, vbi_from_loop-ok bytes 0 1 0 v n hb)

-- A number that is complete in the whole input is found in a part of it, or the part is too short.
vbi_from_loop-prefix :
    (front more : Bytes) (m value idx v n : ℕ)
    → vbi_from_loop (front ++ more) m value idx ≡ ok (v, n)
    → (vbi_from_loop front m value idx ≡ ok (v, n))
      ⊎ (vbi_from_loop front m value idx ≡ err not_enough_bytes)
unfolding vbi_from_loop
vbi_from_loop-prefix [] more m value idx v n e = inr refl
vbi_from_loop-prefix (b ∷ front) more m value idx v n e =
    ground
      (arith, vbi_from_loop-prefix front more (m * 128) (value + bit_and b 127 * m) (idx + 1) v n)

-- Where the whole input begins with a number, a part of the input either gives the same number and
-- length or has too few bytes; it never gives another number or another error.
pub vbi_from-prefix :
    (front more : Bytes) (v n : ℕ)
    → vbi_from_mqtt (front ++ more) ≡ ok (v, n)
    → (vbi_from_mqtt front ≡ ok (v, n)) ⊎ (vbi_from_mqtt front ≡ err not_enough_bytes)
unfolding vbi_from_mqtt
vbi_from-prefix front more v n e = vbi_from_loop-prefix front more 1 0 0 v n e

-- A success does not depend on the bytes behind the number.
vbi_from_loop-append :
    (front more : Bytes) (m value idx v n : ℕ)
    → vbi_from_loop front m value idx ≡ ok (v, n)
    → vbi_from_loop (front ++ more) m value idx ≡ ok (v, n)
unfolding vbi_from_loop
vbi_from_loop-append [] more m value idx v n e = cc
vbi_from_loop-append (b ∷ front) more m value idx v n e =
    ground
      (arith, vbi_from_loop-append front more (m * 128) (value + bit_and b 127 * m) (idx + 1) v n)

pub vbi_from-append :
    (front more : Bytes) (v n : ℕ)
    → vbi_from_mqtt front ≡ ok (v, n)
    → vbi_from_mqtt (front ++ more) ≡ ok (v, n)
unfolding vbi_from_mqtt
vbi_from-append front more v n e = vbi_from_loop-append front more 1 0 0 v n e
