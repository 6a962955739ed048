-- ===== src/Core.antt =====
-- core/src: the game server's core, rooms and their actors behind a transport.
mod Examples
mod TransportExamples
mod RoomExamples
pub mod TokenBucket
pub mod TransportLayer
pub mod Room
pub mod RoomManager
