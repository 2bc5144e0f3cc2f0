-- ===== src/Wgnet.antt =====
-- internal/wgnet: the WireGuard interface of the agent. wireguard-go's engine, its key type and the
-- system's routing calls are outside: keys are a parameter, the outcomes of calls are inputs.
pub mod Keys
pub mod Device
pub mod Status
pub mod Exit
pub mod Demo
mod Tests
