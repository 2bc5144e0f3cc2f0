-- ===== src/Control.antt =====
-- The control plane, internal/control: the persistent store of machines, keys and accounts, and
-- the HTTP handlers above it.
pub mod State
pub mod Acl
pub mod Alloc
pub mod Devices
pub mod Fleet
pub mod Sound
pub mod Users
pub mod Demo
pub mod Open
pub mod Api
pub mod Admin
pub mod Portal
pub mod Oidc
mod Tests
