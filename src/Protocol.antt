-- ===== src/Protocol.antt =====
-- src/protocol/mod.rs, the types that its encoders and decoders share. Bytes are numbers below
-- 256, and a Rust `String` is the list of its UTF-8 bytes.
pub mod Vbi
pub mod Text
pub mod PktId
pub mod Properties
pub mod Property
pub mod Qos
pub mod Reason
pub mod Frame
pub mod Ack
pub mod Disconnect
pub mod Requests
pub mod Packet
pub mod Publish
pub mod Typed
use ruq.Base.{ℕ, ◌<◌, ◌≡◌, ◌++◌, List, length, Outcome, ok}

abbrev pub IsByte : ℕ → Type 0
IsByte b = b < 256

abbrev pub Bytes : Type 0
Bytes = List ℕ

-- What the formatted text of an error says. The texts are for the log alone.
pub data Message : Type 0 where
  vbi_exceeds_four_bytes not_utf8 expiry_sent_by_server : Message
  invalid_qos invalid_reason invalid_flags property_not_implemented : ℕ → Message

-- `ConvertError`.
pub data ConvertError : Type 0 where
  not_enough_bytes zero_pkt_id : ConvertError
  other : Message → ConvertError

-- `Result<(Self, usize), ConvertError>`: the value, and how many bytes it took.
abbrev pub Decoded : Type 0 → Type 0
Decoded A = Outcome ConvertError (A × ℕ)

-- On the encoding `enc`, whatever follows it, the decoder finds `v` and takes just `enc`.
abbrev pub Reads : {A : Type 0} → (Bytes → Decoded A) → Bytes → A → Type 0
Reads decode enc v = (rest : Bytes) → decode (enc ++ rest) ≡ ok (v, length enc)

-- The `std::io::Error` values of the crate, by their kind.
pub data IoError : Type 0 where
  invalid_data timed_out other_io : IoError
