-- ===== src/Tests.antt =====
-- Runs at concrete inputs, and the theorems at inputs that meet their hypotheses.
mod System
mod Core
mod Config
mod Ssh
mod Metrics
mod Daemon
mod Cli
mod Live
mod Platforms
mod Serve
mod Interleaving
