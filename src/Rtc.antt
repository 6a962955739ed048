-- ===== src/Rtc.antt =====
-- node/src/peer and browser/src/peer: frames over WebRTC data channels.
mod Examples
pub mod Chunker
pub mod Reassembler
