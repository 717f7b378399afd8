-- ===== src/Lib.antt =====
-- A verification library of hifi-api-rust, the Axum server in src/ that passes catalog and playback
-- requests on to Tidal with a pool of accounts. A request passes the guards and the API keys, is
-- answered from the response cache where possible, and otherwise takes a lease of an account, whose
-- token and proxy the token and proxy managers provide; playback requests wait in a queue.
--
-- Base: what the files share: tests on native numbers, lists, byte strings, and association lists for
--   `HashMap`s.
-- Lockout, ScannerGuard, AdminAuthGuard: src/scanner_guard.rs and src/admin/auth_guard.rs. Both keep
--   the same table of addresses, whose steps are written once in Lockout; instants are nanoseconds.
-- AppError: src/error.rs.
-- Playback: src/playback.rs. Slots has the permits, Ops the operations and timings, Job the jobs,
--   Queue and Worker the parts of `dispatch` between its waits, Handlers the other requests, and
--   Events the schedules: an event is a stretch of code between two waits, so that a list of events
--   is an interleaving of requests, workers and the reaper. A queued request has two stretches, the
--   insertion of its job and the spawning of its worker; a client may be gone in between. The clock,
--   the ready accounts, fresh ids, the answer cache and the result of an operation are arguments.
-- Accounts: src/account_manager.rs. State has `AccountState`, Lease and Select the choice of an
--   account and its leases (`try_lease`), Catalog the choice for the catalog, RateLimit the 429
--   pauses, Switch the owner's and the system's switch, Checks the premium status, Edits the rebuilt
--   states (`carry_over`, with the locks that it may find taken), Held the schedules of leases.
-- Uptime: src/account_uptime.rs. History has the stored events, Status, Window, Tiles and Summary what
--   is shown of them, Observations how they come about.
-- Cache: src/cache.rs. Policy has the paths and their periods, Query and Keys the keys, Body and Collect
--   the bounded copy of an answer, Store the entries (the two moka caches are association lists, and
--   evictions are events), Handler `cache_middleware`, Events the schedules.
-- ApiKeys: src/api_keys.rs. Keys has the keys and their quotas, Sync the merges with Redis, Enforce the
--   middleware.
-- Tokens: src/token_manager.rs. Cached has the tokens in memory and in Redis, Refresh the head of
--   `refresh` under the account's lock and its outcomes, Cycle the requests to Tidal, Entry `refresh`
--   as a whole and its callers.
-- Proxies: src/proxy_manager.rs. Routes has the bindings of the accounts, Candidates the order of the
--   proxies, Resolve `working_client_for`. `note_failure_for` is cut where it waits for the lock of
--   `rotate_account`.
-- Autoheal: src/autoheal.rs. Due has the schedules of the checks, Round the decisions of a round.
-- RequestLog: src/request_log.rs. Entry has the traffic classes, Log the counters per second, Percentile
--   and Summary what the panel shows, Paths and Handler the middleware, which composes with
--   ScannerGuard. Seconds are numbers; a product with a fraction is an argument, a function of the
--   length. The rest of the server is a function on
--   a state of its own.
-- Tidal: src/tidal_client.rs. Services is the interface of what the client asks of accounts, tokens,
--   proxies and the network, over any state `W` of these, and lists the client's own calls, the latest
--   first. Fallback, Request and Tries are `make_request_with_limit`, Catalog the catalog requests,
--   Account the subscription lookup, and Probe its loop and the FULL/PREVIEW probe; these loops have
--   fuel for two rounds, since only the first 401 leads to another one.
-- Examples: the theorems at concrete inputs and runs of the repository's own tests.
--
-- What is outside src/ or reads the world is an argument: the clock, the hashes, the readings of HTTP
-- dates, the answers of Tidal and of the probes of proxies. A function reads the clock once. Times are
-- natural numbers, so clocks before the epoch are left out (Uptime: before its eighth day); counters do
-- not wrap at 2^64, while the sums that the source saturates are cut at the same limits.
-- Loops are recursions on their list, or on the attempts that are left; only the two loops of Tidal.Probe
-- have fuel, as said above.
--
-- Not modelled: HTTP headers and URLs, database plumbing, the writes to SQLite and Redis, the generic
--   proxy client and the balancing of proxies, the background tasks' timers, the tables of frequent
--   paths and addresses of the request log, the notifier and the shared store, and the admin panel.
pub mod Base
pub mod Lockout
pub mod ScannerGuard
pub mod Tidal
pub mod AdminAuthGuard
pub mod AppError
pub mod Playback
pub mod Accounts
pub mod Uptime
pub mod Cache
pub mod ApiKeys
pub mod Tokens
pub mod Proxies
pub mod Autoheal
pub mod RequestLog
mod Examples
