-- ===== src/Protocol/Frame.antt =====
-- The fixed header that every encoder of src/protocol puts in front of its packet: the first
-- byte, then the remaining length `VBI(buf.len() as u32)`, then `buf`.
pub mod Read
use ruq.Base.{
  ℕ, ◌+◌, ◌%◌, ◌^◌, ◌<◌, ◌≡◌, refl, ◌∷◌, ◌++◌, arith, length, length-append, append_assoc,
  get_elem?, some,
}
use ruq.Protocol.{Bytes}
use ruq.Protocol.Vbi.{vbi_to_mqtt}

unfoldable pub frame : ℕ → Bytes → Bytes
frame first_byte buf = first_byte ∷ (vbi_to_mqtt (length buf % 2 ^ 32) ++ buf)

-- Where the length fits, the frame in its parts, with what follows it.
pub frame_parts :
    (first : ℕ) (buf rest : Bytes)
    → length buf < 2 ^ 28
    → frame first buf ++ rest ≡ first ∷ (vbi_to_mqtt (length buf) ++ (buf ++ rest))
unfolding frame
frame_parts first buf rest h =
    let fits : length buf % 2 ^ 32 ≡ length buf = omega arith in
    rw fits (rw (append_assoc (vbi_to_mqtt (length buf)) buf rest) refl)

pub length-frame :
    (first : ℕ) (buf : Bytes)
    → length buf < 2 ^ 28
    → 1 + length (vbi_to_mqtt (length buf)) + length buf ≡ length (frame first buf)
unfolding frame
length-frame first buf h =
    let fits : length buf % 2 ^ 32 ≡ length buf = omega arith in
    rw fits (omega (arith, length-append (vbi_to_mqtt (length buf)) buf))

pub frame_first : (first : ℕ) (buf : Bytes) → get_elem? (frame first buf) 0 ≡ some first
unfolding frame
frame_first first buf = refl
