-- ===== src/Protocol/Vbi.antt =====
-- src/protocol/mod.rs, `VBI`: the variable byte integer, seven bits a byte, lowest first.
pub mod Encode
pub mod Decode
pub mod RoundTrip
pub mod Limits
use ruq.Base.{
  ℕ, ◌+◌, ◌*◌, ◌/◌, ◌%◌, ◌^◌, ◌<◌, bit_and, bit_or, List, [], ◌∷◌, ◌++◌, arith, ltb, ◌==◌,
  if◌then◌else◌, lt_wf, Outcome, ok, err, panic, ◌>>=◌, checked_add, checked_mul, checked_sub, Bool,
}
use ruq.Protocol.{Bytes, Decoded, not_enough_bytes, other, vbi_exceeds_four_bytes}
use mathlib.Core.Logic.{dite}
use mathlib.Core.WellFounded.{Acc}
use native.Mathlib.Decide.{dec_lt}

div_shrinks : (n : ℕ) → 0 < n / 128 → n / 128 < n
div_shrinks n h = omega arith

-- The loop of `VBI::convert_to_mqtt`: it goes on while `n / 128` is above 0.
vbi_to_loop : (n : ℕ) → Acc ◌<◌ n → Bytes
vbi_to_loop n (Acc.intro _ smaller) =
    dite (dec_lt 0 (n / 128))
      (λ more. bit_or (n % 128) 128 ∷ vbi_to_loop (n / 128) (smaller _ (div_shrinks n more)))
      (λ _. n % 128 ∷ [])

-- `VBI::convert_to_mqtt`, of a u32.
unfoldable pub vbi_to_mqtt : ℕ → Bytes
unfolding vbi_to_loop lt_wf dec_lt div_shrinks
vbi_to_mqtt n = vbi_to_loop n (lt_wf.apply n)

-- The loop of `VBI::convert_from_mqtt`, over the bytes from `idx` on. All three of `value`,
-- `multiplier` and the product are u32.
unfoldable pub vbi_from_loop : Bytes → (multiplier value idx : ℕ) → Decoded ℕ
vbi_from_loop [] multiplier value idx = err not_enough_bytes
vbi_from_loop (byte ∷ rest) multiplier value idx = do
  digit ← checked_mul 32 (bit_and byte 127) multiplier
  value' ← checked_add 32 value digit
  if ltb (128 * 128 * 128) multiplier then err (other vbi_exceeds_four_bytes) else do
    multiplier' ← checked_mul 32 multiplier 128
    let more = vbi_from_loop rest multiplier' value' (idx + 1)
    if bit_and byte 128 == 0 then ok (value', idx + 1) else more

-- `VBI::convert_from_mqtt`.
unfoldable pub vbi_from_mqtt : Bytes → Decoded ℕ
unfolding vbi_from_loop
vbi_from_mqtt bytes = vbi_from_loop bytes 1 0 0

-- The operators of `VBI`: with a `u32` it is compared, with a `usize` it is added and subtracted.
abbrev pub vbi_equals : (vbi n : ℕ) → Bool
vbi_equals vbi n = vbi == n

abbrev pub vbi_below : (vbi n : ℕ) → Bool
vbi_below vbi n = ltb vbi n

abbrev pub vbi_plus : (vbi n : ℕ) → ℕ
vbi_plus vbi n = n + vbi

abbrev pub plus_vbi : (self vbi : ℕ) → ℕ
plus_vbi self vbi = self + vbi

abbrev pub vbi_minus : {E : Type 0} → (vbi n : ℕ) → Outcome E ℕ
vbi_minus vbi n = checked_sub vbi n
