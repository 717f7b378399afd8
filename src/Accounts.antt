-- ===== src/Accounts.antt =====
-- src/account_manager.rs: the pool of Tidal accounts.
pub mod State
pub mod Edits
pub mod RateLimit
pub mod Pauses
pub mod Switch
pub mod OwnerOff
pub mod Lease
pub mod Order
pub mod Select
pub mod Best
pub mod Catalog
pub mod Checks
pub mod Bound
pub mod Held
pub mod Previews
