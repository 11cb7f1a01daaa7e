-- ===== src/Tests.antt =====
-- Concrete runs of the theorems, one module for each part of the program.
mod Setup
mod Sockets
mod Router
mod Usb
mod Daemon
mod Handshake
mod Manager
mod System
mod PublicKey
mod Log
mod Devices
mod SmartSocket
mod Startup
mod Tasks
mod Program
mod DeviceLogs
