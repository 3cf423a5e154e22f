-- ===== src/Tunnel.antt =====
-- signal-call-tunnel/src/main.rs: the audio setup and the event loop.
pub mod EventLoop
pub mod Setup
pub mod Forward
pub mod Inbound
pub mod Process
pub mod System
mod Tests
