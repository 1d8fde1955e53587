-- ===== src/Protocol/Vbi/RoundTrip.antt =====
-- `VBI::convert_from_mqtt` reads back what `VBI::convert_to_mqtt` wrote.
use ruq.Base.{ℕ, ◌+◌, ◌*◌, ◌/◌, ◌%◌, ◌^◌, ◌≤◌, ◌<◌, ◌≡◌, ap, ◌∙◌, ◌++◌, arith, length, ok}
use ruq.Protocol.{Bytes}
use ruq.Protocol.Vbi.{vbi_to_mqtt, vbi_from_loop, vbi_from_mqtt}
use ruq.Protocol.Vbi.Encode.{vbi_to_last, vbi_to_more}
use ruq.Protocol.Vbi.Decode.{vbi_from_loop_last, vbi_from_loop_more}
use native.Mathlib.Decide.{dec_lt}
use native.Mathlib.Nat.{div-add-mod}

-- `m` is the multiplier and `w` the bound that is left for the number.
abbrev Reads : ℕ → ℕ → Type 0
Reads m w =
    (n value idx : ℕ) (rest : Bytes)
    → n < w
    → value + n * m < 2 ^ 28
    → vbi_from_loop (vbi_to_mqtt n ++ rest) m value idx
      ≡ ok (value + n * m, idx + length (vbi_to_mqtt n))

Reads-last : (m : ℕ) → m ≤ 2097152 → Reads m 128
Reads-last m hm n value idx rest hn hv =
    rw (vbi_to_last n hn) (vbi_from_loop_last n m value idx rest hn hm (omega arith))

split_digit : (n m : ℕ) → n * m ≡ n % 128 * m + n / 128 * (m * 128)
split_digit n m = omega (arith, ap (λ (t : ℕ). t * m) (div-add-mod n 128))

-- One more byte of room.
Reads-more : (m w : ℕ) → m ≤ 2097152 → Reads (m * 128) w → Reads m (128 * w)
Reads-more m w hm more n value idx rest hn hv = elim (dec_lt n 128) [
  | yes p ↦ Reads-last m hm n value idx rest p hv
  | no p ↦ rw (vbi_to_more n (omega arith)) (
      vbi_from_loop_more (n % 128) m value idx (vbi_to_mqtt (n / 128) ++ rest) (omega arith) hm
        (omega (arith, split_digit n m))
      ∙ more (n / 128) (value + n % 128 * m) (idx + 1) rest (omega arith)
          (omega (arith, split_digit n m))
      ∙ ground (arith, split_digit n m))
]

-- Every number below 2 ^ 28 is read back from its encoding, whatever follows, with the number of
-- bytes that the encoding has.
pub vbi_from-vbi_to :
    (n : ℕ) (rest : Bytes)
    → n < 2 ^ 28
    → vbi_from_mqtt (vbi_to_mqtt n ++ rest) ≡ ok (n, length (vbi_to_mqtt n))
unfolding vbi_from_mqtt
vbi_from-vbi_to n rest h = ground (
  arith,
  Reads-more 1 2097152 (omega arith)
      (Reads-more 128 16384 (omega arith)
        (Reads-more 16384 128 (omega arith) (Reads-last 2097152 (omega arith))))
      n 0 0 rest,
)
