-- ===== src/Relay.antt =====
-- The fallback relay, internal/relay: its frames, its challenge-response and its server.
pub mod Frames
pub mod Proof
pub mod Server
pub mod Demo
mod Tests
