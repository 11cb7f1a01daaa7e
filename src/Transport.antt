-- ===== src/Transport.antt =====
-- The crate packages/transport: the ADB protocol over one connection.
pub mod Error
pub mod Message
pub mod Connection
pub mod Endpoint
pub mod Usb
pub mod Banner
pub mod Backend
pub mod Socket
pub mod Router
pub mod Handshake
pub mod System
pub mod PublicKey
