-- ===== src/Net.antt =====
-- net/session.cpp: the byte stream of a client's connection.
pub mod Codec
pub mod Session
pub mod Frames
pub mod Framing
pub mod Sending
pub mod Registry
pub mod Unbinding
pub mod Routing
pub mod Server
