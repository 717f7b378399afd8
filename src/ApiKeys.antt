-- ===== src/ApiKeys.antt =====
-- src/api_keys.rs: the keys that open the API, their quotas, and the shared copies of them.
pub mod Keys
pub mod Sync
pub mod Enforce
pub mod Quota
pub mod Access
pub mod Merging
