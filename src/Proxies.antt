-- ===== src/Proxies.antt =====
-- src/proxy_manager.rs: the proxy through which each account reaches Tidal.
pub mod Routes
pub mod Candidates
pub mod Resolve
pub mod Egress
pub mod Cases
