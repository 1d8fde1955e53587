-- ===== src/Server.antt =====
-- The other side of the connection by MQTT 5.0, sections 3.1 to 3.14: an independent description of
-- the packets that a server sends, and an independent reader of those that the client sends.
pub mod Acks
pub mod Short
pub mod Packets
pub mod Stream
pub mod Delivery
pub mod Reader
pub mod Reads
pub mod Requests
