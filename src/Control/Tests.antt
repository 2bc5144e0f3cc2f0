-- ===== src/Control/Tests.antt =====
-- What the theorems about the control plane say of small stores.
mod Machines
mod Tokens
mod Peers
mod Accounts
mod Oidc
