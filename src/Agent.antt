-- ===== src/Agent.antt =====
-- The agent, internal/agent: the choice of the path to each peer, and of the
-- routes that are announced and installed.
pub mod Endpoints
pub mod Routes
pub mod State
pub mod Client
pub mod Sync
pub mod Forward
mod Tests
