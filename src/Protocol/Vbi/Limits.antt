-- ===== src/Protocol/Vbi/Limits.antt =====
-- Variable byte integers at and past their limit.
use ruq.Base.{ℕ, ◌+◌, ◌*◌, ◌%◌, ◌^◌, ◌<◌, ◌≡◌, ◌∙◌, ◌∷◌, arith, err, panic, ltb, if◌then◌else◌}
use ruq.Base.Bits.{bit_and-127}
use ruq.Protocol.{Bytes, IsByte, other, vbi_exceeds_four_bytes}
use ruq.Protocol.Vbi.{vbi_from_loop, vbi_from_mqtt}
use ruq.Protocol.Vbi.Decode.{vbi_from_loop_more}

-- Four digits with the continuation bit lead to the fifth round, at the multiplier 128 ^ 4.
four_rounds :
    (d e f g : ℕ) (rest : Bytes)
    → d < 128
    → e < 128
    → f < 128
    → g < 128
    → vbi_from_mqtt ((d + 128) ∷ (e + 128) ∷ (f + 128) ∷ (g + 128) ∷ rest)
      ≡ vbi_from_loop rest 268435456 (0 + d * 1 + e * 128 + f * 16384 + g * 2097152) 4
unfolding vbi_from_mqtt
four_rounds d e f g rest hd he hf hg =
    let at_g = (g + 128) ∷ rest in
    let at_f = (f + 128) ∷ at_g in
    vbi_from_loop_more d 1 0 0 ((e + 128) ∷ at_f) hd (omega arith) (omega arith)
    ∙ vbi_from_loop_more e 128 (0 + d * 1) 1 at_f he (omega arith) (omega arith)
    ∙ vbi_from_loop_more f 16384 (0 + d * 1 + e * 128) 2 at_g hf (omega arith) (omega arith)
    ∙ vbi_from_loop_more g 2097152 (0 + d * 1 + e * 128 + f * 16384) 3 rest hg (omega arith)
        (omega arith)

fifth_round :
    (h value : ℕ) (rest : Bytes)
    → IsByte h
    → value < 2 ^ 28
    → vbi_from_loop (h ∷ rest) 268435456 value 4
      ≡ (if ltb (h % 128) 16 then err (other vbi_exceeds_four_bytes) else panic)
unfolding vbi_from_loop
fifth_round h value rest hb small = ground (arith, bit_and-127 h hb)

-- A length whose first four bytes carry the continuation bit is never read: with a fifth byte whose
-- low seven bits are below 16 it is refused with an error, and from 16 on the decoder panics, since
-- the product with the multiplier is past a u32.
pub vbi_from_fifth :
    (d e f g h : ℕ) (rest : Bytes)
    → d < 128
    → e < 128
    → f < 128
    → g < 128
    → IsByte h
    → vbi_from_mqtt ((d + 128) ∷ (e + 128) ∷ (f + 128) ∷ (g + 128) ∷ h ∷ rest)
      ≡ (if ltb (h % 128) 16 then err (other vbi_exceeds_four_bytes) else panic)
vbi_from_fifth d e f g h rest hd he hf hg hh =
    four_rounds d e f g (h ∷ rest) hd he hf hg
    ∙ fifth_round h (0 + d * 1 + e * 128 + f * 16384 + g * 2097152) rest hh (omega arith)
