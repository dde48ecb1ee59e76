-- ===== src/Sip.antt =====
-- The SIP server: what the handlers read of a packet, and the dispatch of packets to them.
pub mod Json
pub mod Message
pub mod Packet
pub mod Dispatch
