-- ===== src/Omnisock.antt =====
-- The agent's socket, internal/omnisock: disco probes, and the one UDP socket that WireGuard, STUN,
-- disco and the relay share.
pub mod Disco
pub mod Bind
pub mod Socket
mod Tests
