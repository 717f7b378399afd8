-- ===== src/Tokens.antt =====
-- src/token_manager.rs: the access tokens of the accounts and their refreshes.
pub mod Cached
pub mod Refresh
pub mod Cycle
pub mod Served
pub mod Outcomes
pub mod Attempts
pub mod Entry
pub mod Ends
