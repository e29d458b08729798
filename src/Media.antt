-- ===== src/Media.antt =====
-- internal/bridge/media.go: the RTP/RTCP relay of a call.
pub mod Packet
pub mod Alaw
pub mod Tone
pub mod Relay
