-- ===== src/Autoheal.antt =====
-- src/autoheal.rs: when the background loop checks an account.
pub mod Due
pub mod Windows
pub mod Round
