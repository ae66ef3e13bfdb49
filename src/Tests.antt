-- ===== src/Tests.antt =====
-- The theorems at concrete inputs, and runs of the code on them.
pub mod Fixtures
pub mod Protocol
pub mod Configuration
pub mod Tables
pub mod Sessions
pub mod Deploying
pub mod Alerting
pub mod Agents
pub mod Delivering
pub mod Formatting
pub mod Terminal
pub mod Runs
pub mod Views
pub mod Screens
