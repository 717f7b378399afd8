-- ===== src/RequestLog.antt =====
-- src/request_log.rs: the log of requests, the rates and latencies that the overview shows of it, and
-- the middleware that fills it.
pub mod Entry
pub mod Log
pub mod Window
pub mod History
pub mod Percentile
pub mod Ranks
pub mod Summary
pub mod Slowest
pub mod Paths
pub mod Handler
pub mod Blocked
