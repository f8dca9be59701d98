-- ===== src/Http.antt =====
-- src/server.rs: the HTTP server.
pub mod Listener
pub mod Devices
