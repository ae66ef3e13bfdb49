-- ===== src/Agent.antt =====
-- internal/agent: the program that runs on each machine.
pub mod Deploy
pub mod Docker
pub mod Daemon
pub mod Metrics
pub mod Settings
