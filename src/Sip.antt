-- ===== src/Sip.antt =====
-- Package internal/sip: SIP messages, SDP, digest authentication and the UDP server.
pub mod Message
pub mod ResponseCache
pub mod Server
pub mod Sdp
pub mod Digest
