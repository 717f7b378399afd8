-- ===== src/Tidal.antt =====
-- src/tidal_client.rs: the requests to Tidal, with their failover over accounts.
pub mod Services
pub mod Fallback
pub mod Request
pub mod Tries
pub mod Trace
pub mod Steps
pub mod Reactions
pub mod Attempts
pub mod Leases
pub mod Runs
pub mod Probe
pub mod Account
pub mod Asks
pub mod Tracks
pub mod Verdict
pub mod Subscription
pub mod CatalogAccount
pub mod Catalog
pub mod Segments
pub mod CatalogAttempts
pub mod CatalogSlots
pub mod Overflow
