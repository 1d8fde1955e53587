-- ===== src/Codec/Framing.antt =====
-- How `decode` cuts packets out of the buffer.
use ruq.Base.{
  ℕ, ◌+◌, ◌^◌, ◌≤◌, ◌<◌, ◌≡◌, ◌≢◌, refl, sym, ap, ◌∙◌, ◌⊎◌, inl, inr, Option, none, some, [], ◌∷◌,
  ◌++◌, arith, length, length-append, take, drop, drop-append_eq, take-append_eq, ok, err, panic,
  out_of_fuel, All, Option-cases, le→not_ltb, lt→ltb, append-nil, Outcome,
}
use ruq.Protocol.{
  Bytes, IoError, ConvertError, IsByte, not_enough_bytes, zero_pkt_id, other, invalid_data,
}
use native.Mathlib.Decide.{dec_lt}
use ruq.Protocol.Vbi.{vbi_to_mqtt, vbi_from_mqtt}
use ruq.Protocol.Vbi.Encode.{vbi_to_not_empty}
use ruq.Protocol.Vbi.RoundTrip.{vbi_from-vbi_to}
use ruq.Protocol.Vbi.Decode.{vbi_from-prefix, vbi_from-ok}
use ruq.Protocol.Frame.{frame, frame_parts, length-frame}
use ruq.Protocol.Packet.{Packet, PacketType, parse_fixed_header, parse_pkt}
use ruq.Codec.{max_len, decode, decode_behind_len}

decode_cons :
    (b : ℕ) (src : Bytes) (ty : PacketType)
    → parse_fixed_header b ≡ some ty
    → 0 < length src
    → decode (b ∷ src) ≡ decode_behind_len (b ∷ src) (vbi_from_mqtt src)
unfolding decode
decode_cons b [] ty e h = absurd (omega arith)
decode_cons b (c ∷ src) ty e h = rw (e, decode)

module _ (b : ℕ) (src : Bytes) (ty : PacketType) (e : parse_fixed_header b ≡ some ty) where
  decode_complete :
      (len n : ℕ)
      → vbi_from_mqtt src ≡ ok (len, n)
      → len < 2 ^ 28
      → 0 < n
      → n + len ≤ length src
      → decode (b ∷ src) ≡ (parse_pkt (take (1 + n + len) (b ∷ src)), drop (1 + n + len) (b ∷ src))
  unfolding decode_behind_len
  decode_complete len n v small pos enough =
      rw (decode_cons b src ty e (omega arith), v)
        (rw (le→not_ltb max_len len (omega arith))
          (rw (le→not_ltb (length (b ∷ src)) (1 + n + len) (omega arith)) refl))

  decode_incomplete :
      (len n : ℕ)
      → (vbi_from_mqtt src ≡ ok (len, n)) ⊎ (vbi_from_mqtt src ≡ err not_enough_bytes)
      → len < 2 ^ 28
      → length src < n + len
      → 0 < length src
      → decode (b ∷ src) ≡ (ok none, b ∷ src)
  unfolding decode_behind_len
  decode_incomplete len n (inl v) small short pos =
      rw (decode_cons b src ty e pos, v)
        (rw (le→not_ltb max_len len (omega arith))
          (rw (lt→ltb (length (b ∷ src)) (1 + n + len) (omega arith)) refl))
  decode_incomplete len n (inr v) small short pos = rw (decode_cons b src ty e pos, v) refl

module _ (first : ℕ) (buf : Bytes) (ty : PacketType) (e : parse_fixed_header first ≡ some ty)
    (h : length buf < 2 ^ 28) where
  -- A whole packet of a known type in front of the buffer, its remaining length below 2 ^ 28, is cut
  -- off at its end and parsed on its own.
  pub decode-frame :
      (rest : Bytes) → decode (frame first buf ++ rest) ≡ (parse_pkt (frame first buf), rest)
  decode-frame rest =
      let len = vbi_to_mqtt (length buf) in
      let total = 1 + length len + length buf in
      let whole = frame_parts first buf rest h in
      rw (whole) (
        decode_complete first (len ++ (buf ++ rest)) ty e (length buf) (length len)
          (vbi_from-vbi_to (length buf) (buf ++ rest) h) h (vbi_to_not_empty (length buf))
          (omega (arith, length-append len (buf ++ rest), length-append buf rest))
        ∙ rw (← whole) (
            rw
              (
                take-append_eq total (frame first buf) rest (length-frame first buf h),
                drop-append_eq total (frame first buf) rest (length-frame first buf h),
              )
              refl))

  -- On a proper part of a packet of a known type, its remaining length below 2 ^ 28, wherever it was
  -- cut, `decode` waits and keeps the buffer.
  pub decode-part :
      (front back : Bytes) (x : ℕ)
      → frame first buf ≡ front ++ (x ∷ back)
      → decode front ≡ (ok none, front)
  decode-part [] back x cut = unfold decode in refl
  decode-part (a ∷ []) back x cut = unfold decode in refl
  decode-part (a ∷ c ∷ front) back x cut =
      let len = vbi_to_mqtt (length buf) in
      let whole : first ∷ (len ++ (buf ++ [])) ≡ a ∷ ((c ∷ front) ++ (x ∷ back)) =
        sym (frame_parts first buf [] h) ∙ append-nil (frame first buf) ∙ cut in
      let same : len ++ (buf ++ []) ≡ (c ∷ front) ++ (x ∷ back) = cc whole in
      let head : parse_fixed_header a ≡ some ty = rw (← (let q : first ≡ a = cc whole in q)) e in
      decode_incomplete a (c ∷ front) ty head (length buf) (length len)
        (vbi_from-prefix (c ∷ front) (x ∷ back) (length buf) (length len)
          (rw (← same) (vbi_from-vbi_to (length buf) (buf ++ []) h)))
        h
        (omega (
          arith,
          ap length cut,
          length-frame first buf h,
          length-append (a ∷ c ∷ front) (x ∷ back),
        ))
        (omega arith)

-- The answers without a packet.
abbrev pub NoPacket : Outcome IoError (Option Packet) → Type 0
NoPacket (ok none) = Unit
NoPacket (ok (some p)) = ⊥
NoPacket _ = Unit

abbrev pub Keeps : Bytes → Type 0
Keeps src = (a : Outcome IoError (Option Packet)) × NoPacket a × (decode src ≡ (a, src))

-- A packet of a known type stands whole in front: behind its first byte the remaining length `len` is
-- read from `n` bytes, and that many follow.
abbrev pub IsWhole : Bytes → (len n : ℕ) → Type 0
IsWhole [] len n = ⊥
IsWhole (b ∷ src) len n =
    ((ty : PacketType) × (parse_fixed_header b ≡ some ty))
    × (vbi_from_mqtt src ≡ ok (len, n))
    × (1 + n + len ≤ length (b ∷ src))

abbrev pub Waits : Bytes → Type 0
Waits src = ((len n : ℕ) → ¬ IsWhole src len n) × Keeps src

abbrev pub Takes : Bytes → Type 0
Takes src =
    (len : ℕ) × (n : ℕ) × IsWhole src len n
    × (decode src ≡ (parse_pkt (take (1 + n + len) src), drop (1 + n + len) src))

not_read :
    (b : ℕ) (src : Bytes) (r : Outcome ConvertError (ℕ × ℕ))
    → vbi_from_mqtt src ≡ r
    → ((len n : ℕ) → r ≢ ok (len, n))
    → (len n : ℕ) → ¬ IsWhole (b ∷ src) len n
not_read b src r v ne len n (_, read, _) = ne len n (sym v ∙ read)

decode_len_cases :
    (b : ℕ) (src : Bytes) (ty : PacketType) (r : Outcome ConvertError (ℕ × ℕ))
    → parse_fixed_header b ≡ some ty
    → All IsByte src
    → 0 < length src
    → vbi_from_mqtt src ≡ r
    → Waits (b ∷ src) ⊎ Takes (b ∷ src)
unfolding decode_behind_len
decode_len_cases b src ty (ok (len, n)) e hb pos v =
    let (small, some_read, _, inside) = vbi_from-ok src len n hb v in
    elim (dec_lt (length src) (n + len)) [
      | yes short ↦ inl (
        (λ l k whole. let same : n + len ≡ k + l = cc (v, whole.1) in omega (arith, whole.2)),
        (ok none, tt, decode_incomplete b src ty e len n (inl v) small short pos),
      )
      | no enough ↦ inr (
        len,
        n,
        ((ty, e), v, omega arith),
        decode_complete b src ty e len n v small some_read (omega arith),
      )
    ]
decode_len_cases b src ty (err not_enough_bytes) e hb pos v = inl (
  not_read b src _ v (λ l k q. cc q),
  (ok none, tt, decode_cons b src ty e pos ∙ ap (decode_behind_len (b ∷ src)) v),
)
decode_len_cases b src ty (err zero_pkt_id) e hb pos v = inl (
  not_read b src _ v (λ l k q. cc q),
  (err invalid_data, tt, decode_cons b src ty e pos ∙ ap (decode_behind_len (b ∷ src)) v),
)
decode_len_cases b src ty (err (other m)) e hb pos v = inl (
  not_read b src _ v (λ l k q. cc q),
  (err invalid_data, tt, decode_cons b src ty e pos ∙ ap (decode_behind_len (b ∷ src)) v),
)
decode_len_cases b src ty panic e hb pos v = inl (
  not_read b src _ v (λ l k q. cc q),
  (panic, tt, decode_cons b src ty e pos ∙ ap (decode_behind_len (b ∷ src)) v),
)
decode_len_cases b src ty out_of_fuel e hb pos v = inl (
  not_read b src _ v (λ l k q. cc q),
  (out_of_fuel, tt, decode_cons b src ty e pos ∙ ap (decode_behind_len (b ∷ src)) v),
)

-- On any bytes: where a packet of a known type stands whole in front, `decode` cuts off its first byte,
-- the bytes of its remaining length and as many as that says, and answers what `parse_pkt` makes of
-- just these; where none does, it keeps the whole buffer and answers no packet.
pub decode_cases : (src : Bytes) → All IsByte src → Waits src ⊎ Takes src
unfolding decode vbi_from_mqtt
decode_cases [] hb = inl ((λ l k whole. whole), (ok none, tt, refl))
decode_cases (b ∷ []) hb = inl ((λ l k whole. cc (whole.1)), (ok none, tt, refl))
decode_cases (b ∷ c ∷ src) (h, hb) = elim (Option-cases (parse_fixed_header b)) [
  | inl unknown ↦ inl (
    (λ l k whole. let q = whole.0.1 in cc (unknown, q)),
    (err invalid_data, tt, rw (unknown, decode) refl),
  )
  | inr (ty, known) ↦
      decode_len_cases b (c ∷ src) ty (vbi_from_mqtt (c ∷ src)) known hb (omega arith) refl
]
