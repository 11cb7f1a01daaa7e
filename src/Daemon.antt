-- ===== src/Daemon.antt =====
-- The daemon's own crate, under src.
pub mod Proto
pub mod Forward
pub mod Manager
pub mod ProtocolString
pub mod SmartSocket
pub mod Log
pub mod Config
pub mod Startup
pub mod Program
pub mod Discovery
