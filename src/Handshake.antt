-- ===== src/Handshake.antt =====
-- handshake/src: the binary wire format shared by server and clients.
pub mod Examples
pub mod Utf8
pub mod Writer
pub mod Reader
pub mod Value
pub mod Serializer
pub mod Message
pub mod CloseFrame
pub mod Codec
