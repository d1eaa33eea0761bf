-- ===== src/Protocol.antt =====
-- pkg/protocol: the messages of the peer-to-peer protocol and their layouts.
pub mod VarInt
pub mod Network
pub mod Message
pub mod Payloads
pub mod Addresses
