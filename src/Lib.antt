-- ===== src/Lib.antt =====
-- ruq, an MQTT v5 client library in Rust: its packets, its codec, its packet identifiers, its
-- event loop from the first packet to the end, and the methods of its client.
--
-- The program's parts. A user's `Client` (src/client.rs) sends commands over a channel to the
-- event loop, the function `poll` of src/lib.rs, which owns the connection. The loop reads and
-- writes packets through `MqttCodec` (src/mqtt_codec.rs), which cuts the byte stream into packets
-- and hands each to `parse_pkt` (src/protocol/mod.rs) or writes one with `convert_to_mqtt`. For a
-- packet that waits for an answer the loop takes an identifier from `PktIds` (src/pktids.rs), and
-- gives it back when the answer comes. Notifications go back to the user over another channel.
--
-- Which file models which part:
--   Base             tests, lists, slices and results over the native numbers
--   Protocol         src/protocol/: the types that all packets share
--   Protocol/Vbi     mod.rs, `VBI`: the variable byte integer
--   Protocol/Text    mod.rs: strings and byte vectors with a length of two bytes
--   Protocol/PktId   mod.rs: the packet identifier
--   Protocol/Property, Protocol/Properties
--                    properties.rs: one property, and a list of them behind its length
--   Protocol/Qos     qos.rs, and the flags of publish.rs
--   Protocol/Publish publish.rs: constructors, `convert_to_mqtt`, `convert_from_mqtt`
--   Protocol/Reason  the reason codes of connack.rs, disconnect.rs, puback.rs, suback.rs, unsuback.rs
--   Protocol/Ack     connack.rs, suback.rs, unsuback.rs and puback.rs; the first three have one
--                    and the same property type, modelled once
--   Protocol/Disconnect, Protocol/Requests
--                    disconnect.rs; connect.rs, subscribe.rs, unsubscribe.rs, pingreq.rs, pingresp.rs
--   Protocol/Frame   the fixed header that every encoder puts before its buffer
--   Protocol/Packet  mod.rs: `Packet`, `PacketType`, `parse_pkt`
--   Protocol/Typed   the ranges that the Rust types of src/protocol give for nothing
--   Codec            src/mqtt_codec.rs: `decode`, `encode`
--   PktIds           src/pktids.rs: `next_id`, `return_id` and their helpers
--   Client           src/client.rs: the publish builder, and `Command` of src/lib.rs
--   Client/Calls     src/client.rs: the methods of `Client`
--   EventLoop        src/lib.rs, `poll`: one function per arm of `select!`
--   EventLoop/Spec   what one round of `poll` promises, as an abstract machine over sets of identifiers
--   Poll, Poll/Spec  src/lib.rs, `poll` as a whole, and what it promises
--   Poll/Burst, Poll/Steady
--                    `poll` on many packets at QoS 1, without an answer and with one after each
--   Future           src/lib.rs, `EventLoop` and its `Future`; `Client::new` of src/client.rs
--   EventLoop/Exchange
--                    a subscription, and a packet at QoS 1, from the command to the answer
--   Server           the other side by MQTT 5.0: the packets that a server sends and how the codec
--                    reads them from a stream of chunks, and a reader of the client's requests
--   Server/Delivery  the codec and `poll` together, from the bytes of a server to the notifications
--   PktIds/Reference a reference allocator for src/pktids.rs
--   Example          examples/1.rs: what the main task calls, and the task that reads notifications
--   Example/Load     the calls of the main task and the event loop
--   Example/Run      the other task and the event loop over a channel
--   Tests            the theorems at concrete inputs, and in Tests/Source the unit tests of src/
--
-- How code and model correspond. A `Result` is an `Outcome`: `ok`, `err`, or `panic` for an index
-- out of range, `unimplemented!`, `todo!`, `unreachable!` and an arithmetic overflow, which is the
-- behaviour of a build with overflow checks; a build without them wraps around there. `out_of_fuel` is
-- no behaviour of the code. An object that a method changes is passed in and comes back. A `String`
-- is the list of its bytes, and `std::str::from_utf8` the check of RFC 3629 on them. The text of an
-- error is a value of `Message`, an `std::io::Error` its kind, and in a notification the packet
-- stands for its formatted text. `usize` is unbounded, but subtraction on it is checked. What the
-- socket answers to a write is an argument of the round; which event a round gets is open. A
-- packet counts as written when the socket takes it.
--
-- Bounds and fuel. `return_id` walks the list with fuel 65537: its ranges are disjoint and none but
-- the last is empty, so there are at most 2 ^ 16 of them. A list of properties is read with the
-- length of its bytes as fuel, since a property takes one at least; the properties of PUBACK with
-- their length and one. The encoder of a variable byte integer recurses on the accessibility of its
-- argument.
--
-- The future of the event loop goes round its loop with fuel 2: a connected one returns in its next round.
--
-- In Example/Run the command channel has room for what the second task sends.
--
-- What the code only calls is a parameter: the answers of the TCP connect and of the inner future,
-- the `try_send` of the command channel, which events `select!` hands over and in which order, and
-- what the socket answers.
--
-- Not modelled: pinning and wakers, the TCP connect, the inside of the channels and the fairness of
-- `select!` (tokio, futures and pin_project); the operators of `VBI`
-- that no decoder uses; `Display`, `Debug` and the conversion of errors to text; the threads, the pauses and
-- the log lines of examples/1.rs.
pub mod Base
pub mod Protocol
pub mod Codec
pub mod PktIds
pub mod Client
pub mod EventLoop
pub mod Poll
pub mod Future
pub mod Server
pub mod Example
pub mod Tests
