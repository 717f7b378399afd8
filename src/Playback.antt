-- ===== src/Playback.antt =====
-- src/playback.rs: the bounded queue of playback requests, its permits, its jobs and their workers.
pub mod Slots
pub mod Ops
pub mod Job
pub mod Queue
pub mod Worker
pub mod Handlers
pub mod Events
pub mod Permits
pub mod Bound
pub mod Lifecycle
