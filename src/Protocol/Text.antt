-- ===== src/Protocol/Text.antt =====
-- src/protocol/mod.rs: strings and byte vectors behind a two-byte length. `from_utf8` of the
-- standard library is the check of RFC 3629.
pub mod Laws
use ruq.Base.{
  ℕ, zero, suc, ◌+◌, ◌*◌, ◌/◌, ◌%◌, ◌^◌, Bool, true, false, ◌&&◌, List, [], ◌∷◌, ◌++◌, length, ltb,
  leb, ◌==◌, if◌then◌else◌, ok, err, ◌>>=◌, ok_or, get_range, slice,
}
use ruq.Protocol.{Bytes, Decoded, not_enough_bytes, other, not_utf8}

-- `to_be_bytes` of a u16 and of a u32.
abbrev pub u16_to_be : ℕ → Bytes
u16_to_be n = n / 256 % 256 ∷ n % 256 ∷ []

abbrev pub u32_to_be : ℕ → Bytes
u32_to_be n = n / 16777216 % 256 ∷ n / 65536 % 256 ∷ n / 256 % 256 ∷ n % 256 ∷ []

-- `from_be_bytes`.
abbrev pub be_value_from : ℕ → Bytes → ℕ
be_value_from acc [] = acc
be_value_from acc (b ∷ bs) = be_value_from (acc * 256 + b) bs

abbrev pub from_be : Bytes → ℕ
from_be bs = be_value_from 0 bs

abbrev within : ℕ → ℕ → ℕ → Bool
within lo hi b = leb lo b && leb b hi

-- The bytes that a lead byte asks for, with the range of the first of them; `none` for no lead byte.
abbrev lead : ℕ → ℕ × ℕ × ℕ
lead b =
    if ltb b 0x80
    then (0, 0x80, 0xbf)
    else if within 0xc2 0xdf b
    then (1, 0x80, 0xbf)
    else if b == 0xe0
    then (2, 0xa0, 0xbf)
    else if b == 0xed
    then (2, 0x80, 0x9f)
    else if within 0xe1 0xef b
    then (2, 0x80, 0xbf)
    else if b == 0xf0
    then (3, 0x90, 0xbf)
    else if within 0xf1 0xf3 b
    then (3, 0x80, 0xbf)
    else if b == 0xf4
    then (3, 0x80, 0x8f)
    else (4, 0, 0)

-- `need` bytes are still to come, the first of them from `lo` to `hi`.
utf8_loop : (need lo hi : ℕ) → Bytes → Bool
utf8_loop zero lo hi [] = true
utf8_loop (suc need) lo hi [] = false
utf8_loop zero lo hi (b ∷ bs) =
    let (need, lo', hi') = lead b in ltb need 4 && utf8_loop need lo' hi' bs
utf8_loop (suc need) lo hi (b ∷ bs) = within lo hi b && utf8_loop need 0x80 0xbf bs

-- `std::str::from_utf8(bytes).is_ok()`.
unfoldable pub is_utf8 : Bytes → Bool
unfolding utf8_loop
is_utf8 bs = utf8_loop 0 0x80 0xbf bs

-- `convert_to_mqtt` of `&str`, `String` and `&[u8]`: the length is cut to a u16.
unfoldable pub text_to_mqtt : Bytes → Bytes
text_to_mqtt s = u16_to_be (length s % 2 ^ 16) ++ s

-- The length in front of a string or a vector. The two-byte slice always fits its array.
unfoldable pub len_from_mqtt : Bytes → Decoded ℕ
len_from_mqtt bytes = do two ← ok_or not_enough_bytes (get_range bytes 0 2); ok (from_be two, 2)

-- `String::convert_from_mqtt`.
unfoldable pub string_from_mqtt : Bytes → Decoded Bytes
unfolding len_from_mqtt
string_from_mqtt bytes = do
  (len, _) ← len_from_mqtt bytes
  if ltb 0 len && leb (len + 2) (length bytes)
      then (do
        s ← slice bytes 2 (2 + len)
        if is_utf8 s then ok (s, len + 2) else err (other not_utf8))
      else if len == 0
      then ok ([], 2)
      else err not_enough_bytes

-- `Vec::<u8>::convert_from_mqtt`.
unfoldable pub vec_from_mqtt : Bytes → Decoded Bytes
unfolding len_from_mqtt
vec_from_mqtt bytes = do
  (len, _) ← len_from_mqtt bytes
  if ltb 0 len then (do v ← slice bytes 2 (2 + len); ok (v, len + 2)) else ok ([], 2)
