-- ===== src/Cache.antt =====
-- src/cache.rs: the cache of answers to metadata requests.
pub mod Policy
pub mod Query
pub mod Keys
pub mod Body
pub mod Collect
pub mod Store
pub mod Handler
pub mod Events
pub mod Kept
pub mod Serving
