-- ===== src/Protocol/Frame/Read.antt =====
-- How every decoder of src/protocol begins on a whole frame: it skips the first byte, reads the
-- remaining length and compares it with the slice.
use ruq.Base.{
  ℕ, zero, suc, false, ◌+◌, ◌^◌, ◌<◌, ◌≡◌, refl, sym, ap, ◌∙◌, [], ◌∷◌, ◌++◌, arith, length, ltb,
  append-nil, ok, ◌>>=◌, At, At-next, slice_from, slice_from-At, bind_step, le→not_ltb, index,
}
use ruq.Protocol.{Bytes, ConvertError, Decoded}
use ruq.Protocol.Vbi.{vbi_to_mqtt, vbi_from_mqtt}
use ruq.Protocol.Vbi.RoundTrip.{vbi_from-vbi_to}
use ruq.Protocol.Frame.{frame, frame_parts, length-frame}

pub index-append :
    (before tail : Bytes) (x k : ℕ)
    → k ≡ length before
    → index {E = ConvertError} (before ++ (x ∷ tail)) k ≡ ok x
index-append [] tail x zero e = refl
index-append [] tail x (suc k) e = absurd (omega arith)
index-append (b ∷ before) tail x zero e = absurd (omega arith)
index-append (b ∷ before) tail x (suc k) e = index-append before tail x k (omega arith)

pub index-At :
    {xs : Bytes} {k : ℕ} (x : ℕ) (tail : Bytes)
    → At xs k (x ∷ tail)
    → index {E = ConvertError} xs k ≡ ok x
index-At {xs} {k} x tail at = rw at.splits (index-append at.before tail x k at.offset)

module _ (first : ℕ) (buf : Bytes) (h : length buf < 2 ^ 28) where
  At-len : At (frame first buf) 1 (vbi_to_mqtt (length buf) ++ buf)
  At-len = record {
    before = first ∷ [];
    splits =
        sym (append-nil (frame first buf))
        ∙ frame_parts first buf [] h
        ∙ ap (λ (b : Bytes). first ∷ (vbi_to_mqtt (length buf) ++ b)) (append-nil buf);
    offset = omega arith;
  }

  -- The buffer starts behind the length.
  pub At-buf : At (frame first buf) (1 + length (vbi_to_mqtt (length buf))) buf
  At-buf =
      At-next (vbi_to_mqtt (length buf)) buf (1 + length (vbi_to_mqtt (length buf))) At-len refl

  pub header_step :
      {A : Type 0} (f : ℕ × ℕ → Decoded A) {r : Decoded A}
      → f (length buf, length (vbi_to_mqtt (length buf))) ≡ r
      → (slice_from (frame first buf) 1 >>= λ s. vbi_from_mqtt s >>= f) ≡ r
  header_step f e =
      bind_step _ _ (slice_from-At At-len) (bind_step _ _ (vbi_from-vbi_to (length buf) buf h) e)

  pub not_short :
      ltb (length (frame first buf)) (1 + length (vbi_to_mqtt (length buf)) + length buf) ≡ false
  not_short = le→not_ltb _ _ (omega (arith, length-frame first buf h))
