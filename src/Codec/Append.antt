-- ===== src/Codec/Append.antt =====
-- A decision of `decode` in src/mqtt_codec.rs is final: bytes that arrive later do not change it.
use ruq.Base.{
  ℕ, zero, suc, ◌+◌, ◌≤◌, ◌*◌, bit_and, ◌≡◌, ◌≢◌, refl, ap, ◌∙◌, ◌⊎◌, inl, inr, Option, none, some,
  List, [], ◌∷◌, ◌++◌, arith, length, length-append, take, drop, ok, err, panic, out_of_fuel,
  Option-cases, Outcome,
}
use ruq.Protocol.{Bytes, IoError, not_enough_bytes, zero_pkt_id, other, invalid_data, Decoded}
use ruq.Protocol.Vbi.{vbi_from_loop, vbi_from_mqtt}
use ruq.Protocol.Packet.{Packet, PacketType, parse_fixed_header}
use ruq.Codec.{decode, decode_behind_len, Answer}

vbi_from_loop_final :
    (front more : Bytes) (m value idx : ℕ)
    → vbi_from_loop front m value idx ≢ err not_enough_bytes
    → vbi_from_loop (front ++ more) m value idx ≡ vbi_from_loop front m value idx
unfolding vbi_from_loop
vbi_from_loop_final [] more m value idx h = absurd (h refl)
vbi_from_loop_final (b ∷ front) more m value idx h =
    ground (arith, vbi_from_loop_final front more (m * 128) (value + bit_and b 127 * m) (idx + 1))

vbi_final :
    (front more : Bytes)
    → vbi_from_mqtt front ≢ err not_enough_bytes
    → vbi_from_mqtt (front ++ more) ≡ vbi_from_mqtt front
unfolding vbi_from_mqtt
vbi_final front more h = vbi_from_loop_final front more 1 0 0 h

take-append_le :
    {A : Type 0} (n : ℕ) (xs ys : List A) → n ≤ length xs → take n (xs ++ ys) ≡ take n xs
take-append_le zero xs ys h = refl
take-append_le (suc n) [] ys h = absurd (omega arith)
take-append_le (suc n) (x ∷ xs) ys h = ap (λ l. x ∷ l) (take-append_le n xs ys (omega arith))

drop-append_le :
    {A : Type 0} (n : ℕ) (xs ys : List A) → n ≤ length xs → drop n (xs ++ ys) ≡ drop n xs ++ ys
drop-append_le zero xs ys h = refl
drop-append_le (suc n) [] ys h = absurd (omega arith)
drop-append_le (suc n) (x ∷ xs) ys h = drop-append_le n xs ys (omega arith)

-- More bytes behind an answer that is no request for them.
abbrev later : Answer → Bytes → Answer
later (a, rest) more = (a, rest ++ more)

behind_len_final :
    (src more : Bytes) (r : Decoded ℕ)
    → (decode_behind_len src r).0 ≢ ok none
    → decode_behind_len (src ++ more) r ≡ later (decode_behind_len src r) more
unfolding decode_behind_len
behind_len_final src more (ok (len, n)) h = ground (
  arith,
  length-append src more,
  take-append_le (1 + n + len) src more,
  drop-append_le (1 + n + len) src more,
)
behind_len_final src more (err not_enough_bytes) h = absurd (h refl)
behind_len_final src more (err zero_pkt_id) h = refl
behind_len_final src more (err (other m)) h = refl
behind_len_final src more panic h = refl
behind_len_final src more out_of_fuel h = refl

not_enough_or : (r : Decoded ℕ) → (r ≡ err not_enough_bytes) ⊎ (r ≢ err not_enough_bytes)
not_enough_or (err not_enough_bytes) = inl refl
not_enough_or (err zero_pkt_id) = inr (λ e. cc e)
not_enough_or (err (other m)) = inr (λ e. cc e)
not_enough_or (ok v) = inr (λ e. cc e)
not_enough_or panic = inr (λ e. cc e)
not_enough_or out_of_fuel = inr (λ e. cc e)

module _ (b c : ℕ) (src : Bytes) where
  decode_unknown :
      parse_fixed_header b ≡ none → decode (b ∷ c ∷ src) ≡ (err invalid_data, b ∷ c ∷ src)
  unfolding decode
  decode_unknown h = rw (h, decode) refl

  decode_known :
      (ty : PacketType)
      → parse_fixed_header b ≡ some ty
      → decode (b ∷ c ∷ src) ≡ decode_behind_len (b ∷ c ∷ src) (vbi_from_mqtt (c ∷ src))
  unfolding decode decode_behind_len
  decode_known ty h = rw (h, decode) refl

-- More bytes behind a request for them or behind any other answer.
decode_final :
    (src more : Bytes) → (decode src).0 ≢ ok none → decode (src ++ more) ≡ later (decode src) more
unfolding decode_behind_len
decode_final [] more ne = absurd (ne (unfold decode in refl))
decode_final (b ∷ []) more ne = absurd (ne (unfold decode in refl))
decode_final (b ∷ c ∷ src) more ne = elim (Option-cases (parse_fixed_header b)) [
  | inl unknown ↦ rw (decode_unknown b c src unknown, decode_unknown b c (src ++ more) unknown) refl
  | inr (ty, known) ↦
      let whole = decode_known b c src ty known in
      let ne' = rw whole at ne in
      rw (whole, decode_known b c (src ++ more) ty known)
        (elim (not_enough_or (vbi_from_mqtt (c ∷ src))) [
          | inl short ↦ absurd (rw short at ne' refl)
          | inr found ↦
              rw (vbi_final (c ∷ src) more found)
                (behind_len_final (b ∷ c ∷ src) more (vbi_from_mqtt (c ∷ src)) ne')
        ])
]

-- Once `decode` answers anything but a request for more bytes, it gives the same answer with any
-- further bytes in the buffer, and leaves them behind what it left.
pub decode-append :
    (src more : Bytes) (a : Outcome IoError (Option Packet)) (rest : Bytes)
    → a ≢ ok none
    → decode src ≡ (a, rest)
    → decode (src ++ more) ≡ (a, rest ++ more)
decode-append src more a rest ne e = decode_final src more (λ w. ne (cc (w, e))) ∙ rw e refl
