-- ===== src/Signal.antt =====
-- signal/src: the signaling server, by which peers find each other and agree on a host.
mod Examples
pub mod SignalRoom
