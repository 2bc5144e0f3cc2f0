-- ===== src/Control/Oidc.antt =====
-- internal/control/oidc.go: enrolment through an identity provider.
pub mod Sessions
pub mod Identity
pub mod Callback
pub mod Steps
pub mod Vouched
pub mod Enrolled
pub mod Complete
pub mod Page
