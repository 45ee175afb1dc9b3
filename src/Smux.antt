-- ===== src/Smux.antt =====
-- lib/smux: the stream multiplexer.
pub mod Frame
pub mod Config
pub mod Stream
pub mod Session
pub mod Mux
pub mod Sender
