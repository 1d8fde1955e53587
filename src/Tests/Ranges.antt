-- ===== src/Tests/Ranges.antt =====
-- The Rust types of the packets that are decoded.
use ruq.Base.{◌≡◌, ◌≢◌, some, [], ◌∷◌, arith, ok, out_of_fuel}
use ruq.Protocol.{Bytes}
use ruq.Protocol.Packet.{Packet}
use ruq.Protocol.Typed.{AreBytes, IsTyped}
use ruq.Codec.{decode}
use ruq.Codec.Ends.{decode-out_of_fuel}
use ruq.Codec.Typed.{decode-IsTyped}

-- A SUBACK for the identifier 258, and a byte behind it.
abbrev answer_bytes : Bytes
answer_bytes = 0x90 ∷ 4 ∷ 1 ∷ 2 ∷ 0 ∷ 1 ∷ 0xc0 ∷ []

answer-AreBytes : AreBytes answer_bytes
answer-AreBytes = omega arith

decode-IsTyped_example :
    ((p : Packet) → (decode answer_bytes).0 ≡ ok (some p) → IsTyped p)
    × AreBytes (decode answer_bytes).1
decode-IsTyped_example = decode-IsTyped answer_bytes answer-AreBytes

decode-out_of_fuel_example : (decode answer_bytes).0 ≢ out_of_fuel
decode-out_of_fuel_example = decode-out_of_fuel answer_bytes
