-- ===== src/Daemon.antt =====
-- crates/daemon/src: the shared state, the requests, the health check and the diagnostics.
pub mod State
pub mod Ensure
pub mod Doctor
pub mod Requests
pub mod Health
pub mod Serve
pub mod Boot
pub mod Windows
pub mod Reach
pub mod Contract
pub mod Interleaving
