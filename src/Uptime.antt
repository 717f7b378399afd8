-- ===== src/Uptime.antt =====
-- src/account_uptime.rs: the history of an account's availability over the last seven days.
pub mod History
pub mod Summary
pub mod Observations
pub mod Status
pub mod Tiles
pub mod Window
pub mod Runs
