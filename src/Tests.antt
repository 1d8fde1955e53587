-- ===== src/Tests.antt =====
-- The theorems at concrete inputs: the packets and the codec, the Rust types, the packets of a
-- server, the identifiers, the rounds of the event loop, the whole connection, the methods of the user
-- and the example program; and the tests that the sources hold themselves.
pub mod Packets
pub mod Streams
pub mod Identifiers
pub mod Rounds
pub mod Connection
pub mod Users
pub mod Programs
pub mod Ranges
pub mod Deliveries
pub mod Source
