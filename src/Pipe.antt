-- ===== src/Pipe.antt =====
-- signal-call-tunnel/src/pipe_audio.rs: the audio device that exchanges PCM over a Unix socket.
pub mod Pcm
pub mod Buffer
pub mod Socket
pub mod Clock
pub mod Flags
pub mod Device
pub mod Run
mod Tests
