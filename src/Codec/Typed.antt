-- ===== src/Codec/Typed.antt =====
-- src/mqtt_codec.rs: from bytes `decode` gives packets of the Rust types, and leaves bytes.
use ruq.Base.{
  ℕ, ◌+◌, ◌≡◌, none, some, [], ◌∷◌, ltb, length, ok, err, panic, out_of_fuel, Bool-cases,
  Option-cases, inl, inr,
}
use ruq.Base.Gives.{Gives, Gives-ok, Gives-err, Gives-panic, Gives-fuel}
use ruq.Protocol.{Bytes, Decoded, not_enough_bytes, zero_pkt_id, other}
use ruq.Protocol.Vbi.{vbi_from_mqtt}
use ruq.Protocol.Packet.{Packet, parse_fixed_header}
use ruq.Codec.{decode, decode_behind_len, max_len, Answer}
use ruq.Protocol.Typed.{AreBytes, IsTyped, IsTypedAnswer}
use ruq.Protocol.Typed.Parts.{take-AreBytes, drop-AreBytes}
use ruq.Protocol.Typed.Read.{parse_pkt-IsTyped}

-- The answer, and the bytes that stay in the buffer.
abbrev pub IsTypedDecoding : Answer → Type 0
IsTypedDecoding r = Gives IsTypedAnswer r.0 × AreBytes r.1

behind_len-IsTyped :
    (src : Bytes) (r : Decoded ℕ) → AreBytes src → IsTypedDecoding (decode_behind_len src r)
unfolding decode_behind_len
behind_len-IsTyped src (ok (len, vbi_len)) h = elim (Bool-cases (ltb max_len len)) [
  | inl above ↦ rw above (Gives-err _, h)
  | inr below ↦ elim (Bool-cases (ltb (length src) (1 + vbi_len + len))) [
    | inl short ↦ rw (below, short) (Gives-ok none tt, h)
    | inr whole ↦
        rw (below, whole) (parse_pkt-IsTyped _ (take-AreBytes _ src h), drop-AreBytes _ src h)
  ]
]
behind_len-IsTyped src (err not_enough_bytes) h = (Gives-ok none tt, h)
behind_len-IsTyped src (err zero_pkt_id) h = (Gives-err _, h)
behind_len-IsTyped src (err (other m)) h = (Gives-err _, h)
behind_len-IsTyped src panic h = (Gives-panic, h)
behind_len-IsTyped src out_of_fuel h = (Gives-fuel, h)

decoding-IsTyped : (src : Bytes) → AreBytes src → IsTypedDecoding (decode src)
unfolding decode
decoding-IsTyped [] h = (Gives-ok none tt, tt)
decoding-IsTyped (b ∷ []) h = (Gives-ok none tt, h)
decoding-IsTyped (b ∷ c ∷ src) h = elim (Option-cases (parse_fixed_header b)) [
  | inl unknown ↦ rw (unknown, decode) (Gives-err _, h)
  | inr (ty, q) ↦ rw (q, decode) (behind_len-IsTyped (b ∷ c ∷ src) (vbi_from_mqtt (c ∷ src)) h)
]

-- Out of a buffer of bytes `decode` takes only packets whose fields have values of their Rust types,
-- texts valid as UTF-8 and identifiers from 1 to 65535 among them, and it leaves bytes in the buffer.
pub decode-IsTyped :
    (src : Bytes)
    → AreBytes src
    → ((p : Packet) → (decode src).0 ≡ ok (some p) → IsTyped p) × AreBytes (decode src).1
decode-IsTyped src h =
    let (answer, rest) = decoding-IsTyped src h in (λ p e. answer.given (some p) e, rest)
