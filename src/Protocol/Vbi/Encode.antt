-- ===== src/Protocol/Vbi/Encode.antt =====
-- `VBI::convert_to_mqtt` step by step.
use ruq.Base.{ℕ, ◌+◌, ◌/◌, ◌%◌, ◌≤◌, ◌<◌, ◌≡◌, [], ◌∷◌, arith, length, lt_wf}
use ruq.Base.Bits.{bit_or-128}
use ruq.Protocol.Vbi.{vbi_to_loop, vbi_to_mqtt, div_shrinks}
use mathlib.Core.WellFounded.{Acc}
use native.Mathlib.Decide.{dec_lt}

vbi_to_loop_irrelevant : (n : ℕ) (v w : Acc ◌<◌ n) → vbi_to_loop n v ≡ vbi_to_loop n w
unfolding vbi_to_loop
vbi_to_loop_irrelevant n (Acc.intro _ s) (Acc.intro _ t) = grind (
  arith,
  λ (p : 0 < n / 128).
      vbi_to_loop_irrelevant (n / 128) (s _ (div_shrinks n p)) (t _ (div_shrinks n p)),
)

vbi_to_loop_last : (n : ℕ) (w : Acc ◌<◌ n) → n < 128 → vbi_to_loop n w ≡ n ∷ []
unfolding vbi_to_loop
vbi_to_loop_last n (Acc.intro _ s) h = ground arith

vbi_to_loop_more :
    (n : ℕ) (w : Acc ◌<◌ n) (v : Acc ◌<◌ (n / 128))
    → 128 ≤ n
    → vbi_to_loop n w ≡ (n % 128 + 128) ∷ vbi_to_loop (n / 128) v
unfolding vbi_to_loop
vbi_to_loop_more n (Acc.intro _ s) v h = grind (
  arith,
  bit_or-128 (n % 128),
  λ (p : 0 < n / 128). vbi_to_loop_irrelevant (n / 128) (s _ (div_shrinks n p)) v,
)

pub vbi_to_last : (n : ℕ) → n < 128 → vbi_to_mqtt n ≡ n ∷ []
unfolding vbi_to_mqtt
vbi_to_last n h = vbi_to_loop_last n (lt_wf.apply n) h

pub vbi_to_more : (n : ℕ) → 128 ≤ n → vbi_to_mqtt n ≡ (n % 128 + 128) ∷ vbi_to_mqtt (n / 128)
unfolding vbi_to_mqtt
vbi_to_more n h = vbi_to_loop_more n (lt_wf.apply n) (lt_wf.apply (n / 128)) h

pub vbi_to_not_empty : (n : ℕ) → 0 < length (vbi_to_mqtt n)
vbi_to_not_empty n = elim (dec_lt n 128) [
  | yes p ↦ rw (vbi_to_last n p) (omega arith)
  | no p ↦ rw (vbi_to_more n (omega arith)) (omega arith)
]
