-- ===== src/Examples.antt =====
-- Tests and instances: the theorems at concrete inputs, and runs of the repository's own tests.
mod Guards
mod Queue
mod Errors
mod Uptime
mod Form
mod Caching
mod Access
mod Pool
mod Tokens
mod Proxies
mod Autoheal
mod Requests
mod Tidal
