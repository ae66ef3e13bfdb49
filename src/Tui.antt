-- ===== src/Tui.antt =====
-- internal/tui: the models of the terminal's views, without their rendering.
pub mod Logs
pub mod Switch
pub mod Run
pub mod Cursor
pub mod Rows
pub mod Dialog
pub mod Agents
pub mod RepoState
pub mod Repos
pub mod ContainerLogs
pub mod Channel
pub mod Setup
pub mod Alerts
