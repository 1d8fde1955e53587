-- ===== src/Protocol/Reason.antt =====
-- The reason codes of the acknowledgements and of DISCONNECT, one enumeration to a packet type.
pub mod Puback
pub mod Connack
pub mod Disconnect
pub mod Suback
pub mod Unsuback
