-- ===== src/Protocol/Text/Laws.antt =====
-- Strings and byte vectors: reading back, and what a short or damaged input gives.
use ruq.Base.{◌^◌, ◌<◌, ◌≡◌, refl, true, arith, length, length-append, take-append_eq}
use ruq.Protocol.{Bytes, Reads}
use ruq.Protocol.Text.{is_utf8, text_to_mqtt, string_from_mqtt, vec_from_mqtt}

-- A string that is valid UTF-8 and shorter than 2 ^ 16 bytes is read back from its encoding, whatever
-- follows.
pub string_from-text_to :
    (s : Bytes) → length s < 2 ^ 16 → is_utf8 s ≡ true → Reads string_from_mqtt (text_to_mqtt s) s
unfolding string_from_mqtt text_to_mqtt
string_from-text_to s h u rest =
    ground (arith, length-append s rest, take-append_eq (length s) s rest refl)

-- A byte vector shorter than 2 ^ 16 bytes is read back from its encoding, whatever follows.
pub vec_from-text_to : (s : Bytes) → length s < 2 ^ 16 → Reads vec_from_mqtt (text_to_mqtt s) s
unfolding vec_from_mqtt text_to_mqtt
vec_from-text_to s h rest =
    ground (arith, length-append s rest, take-append_eq (length s) s rest refl)
