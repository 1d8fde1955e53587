-- ===== src/Server/Reads.antt =====
-- The reader of Server/Reader on the parts that the encoders of src/protocol write.
use ruq.Base.{
  ℕ, zero, suc, ◌+◌, ◌*◌, ◌/◌, ◌^◌, ◌<◌, ◌≤◌, All, ◌≡◌, refl, Option, some, List, [], ◌∷◌, ◌++◌,
  arith, length, length-append, take-append_eq, drop-append_eq,
}
use ruq.Protocol.{Bytes}
use ruq.Protocol.Vbi.{vbi_to_mqtt}
use ruq.Protocol.Vbi.Encode.{vbi_to_last, vbi_to_more}
use ruq.Protocol.Text.{u16_to_be, text_to_mqtt}
use ruq.Protocol.Frame.{frame, frame_parts}
use ruq.Server.Reader.{
  Request, ◌>>=◌, read_vbi, read_bytes, read_u8, read_u16, read_text, read_id, read_none, read_some,
  read_body, read_request,
}
use ruq.Protocol.PktId.{IsPktId, pktid_to_mqtt}
use ruq.Protocol.Requests.{topics_to_mqtt}
use native.Mathlib.Decide.{dec_lt}

pub then_some :
    {A B : Type 0} (o : Option A) (f : A → Option B) (a : A) {r : Option B}
    → o ≡ some a
    → f a ≡ r
    → (o >>= f) ≡ r
then_some o f a e q = rw e q

-- `k` bytes are enough for numbers below `w`.
abbrev Enough : ℕ → ℕ → Type 0
Enough k w = (n : ℕ) (rest : Bytes) → n < w → read_vbi k (vbi_to_mqtt n ++ rest) ≡ some (n, rest)

Enough-last : (k : ℕ) → Enough (suc k) 128
unfolding read_vbi
Enough-last k n rest h = rw (vbi_to_last n h) (ground arith)

Enough-more : (k w : ℕ) → Enough k w → Enough (suc k) (128 * w)
unfolding read_vbi
Enough-more k w more n rest h = elim (dec_lt n 128) [
  | yes p ↦ Enough-last k n rest p
  | no p ↦ rw (vbi_to_more n (omega arith)) (ground (arith, more (n / 128) rest (omega arith)))
]

four-Enough : Enough 4 268435456
four-Enough = Enough-more 3 2097152 (Enough-more 2 16384 (Enough-more 1 128 (Enough-last 0)))

pub read_bytes-append : (xs rest : Bytes) → read_bytes (length xs) (xs ++ rest) ≡ some (xs, rest)
unfolding read_bytes
read_bytes-append xs rest = ground (
  arith,
  length-append xs rest,
  take-append_eq (length xs) xs rest refl,
  drop-append_eq (length xs) xs rest refl,
)

pub read_u16-to_be :
    (n : ℕ) (rest : Bytes) → n < 2 ^ 16 → read_u16 (u16_to_be n ++ rest) ≡ some (n, rest)
unfolding read_u16
read_u16-to_be n rest h = ground arith

pub read_text-text_to :
    (s rest : Bytes) → length s < 2 ^ 16 → read_text (text_to_mqtt s ++ rest) ≡ some (s, rest)
unfolding read_text text_to_mqtt read_u16
read_text-text_to s rest h = ground (arith, read_bytes-append s rest)

-- A whole packet is read where its body is.
pub read_request-frame :
    (first : ℕ) (buf rest : Bytes) (r : Request)
    → length buf < 2 ^ 28
    → read_body first buf ≡ some r
    → read_request (frame first buf ++ rest) ≡ some (r, rest)
unfolding read_request read_u8
read_request-frame first buf rest r h e = rw (frame_parts first buf rest h) (
    then_some _ _ _ (four-Enough (length buf) (buf ++ rest) h)
      (then_some _ _ _ (read_bytes-append buf rest) (then_some _ _ _ e refl)))

pub read_id-to_be :
    (id : ℕ) (rest : Bytes) → IsPktId id → read_id (pktid_to_mqtt id ++ rest) ≡ some (id, rest)
unfolding read_id pktid_to_mqtt
read_id-to_be id rest (above, below) =
    then_some _ _ _ (read_u16-to_be id rest below) (ground (arith, above))

pub read_none-zero : (rest : Bytes) → read_none (0 ∷ rest) ≡ some rest
unfolding read_none read_vbi
read_none-zero rest = refl

pub read_none-vbi : (rest : Bytes) → read_none (vbi_to_mqtt 0 ++ rest) ≡ some rest
unfolding read_none
read_none-vbi rest = then_some _ _ _ (four-Enough 0 rest (omega arith)) refl

pub length-text_to : (s : Bytes) → length (text_to_mqtt s) ≡ length s + 2
unfolding text_to_mqtt
length-text_to s = omega arith

pub length-topics_to : (ts : List Bytes) → length ts ≤ length (topics_to_mqtt ts)
unfolding topics_to_mqtt
length-topics_to [] = omega arith
length-topics_to (t ∷ ts) = omega (
  arith,
  length-topics_to ts,
  length-text_to t,
  length-append (text_to_mqtt t) (topics_to_mqtt ts),
)

pub length-id_then : (id : ℕ) (b : Bytes) → length (pktid_to_mqtt id ++ (0 ∷ b)) ≡ 3 + length b
unfolding pktid_to_mqtt
length-id_then id b = omega arith

-- Topics, one behind the other, where there is room for them.
pub read_some-topics :
    (k : ℕ) (t : Bytes) (ts : List Bytes)
    → All (λ topic. length topic < 2 ^ 16) (t ∷ ts)
    → length (t ∷ ts) ≤ k
    → read_some read_text k (topics_to_mqtt (t ∷ ts)) ≡ some (t ∷ ts)
unfolding read_some topics_to_mqtt text_to_mqtt
read_some-topics zero t ts h room = absurd (omega arith)
read_some-topics (suc k) t [] (h, hs) room = then_some _ _ _ (read_text-text_to t [] h) refl
read_some-topics (suc k) t (t' ∷ ts) (h, hs) room =
    then_some _ _ _ (read_text-text_to t (topics_to_mqtt (t' ∷ ts)) h)
      (then_some _ _ _ (read_some-topics k t' ts hs (omega arith)) refl)
