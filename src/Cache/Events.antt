-- ===== src/Cache/Events.antt =====
-- Schedules of src/cache.rs. The lock of a key only orders its events; here every order is a schedule.
use hifi_api_rust.Base.{ℕ, Bool, ◌&&◌, List, [], ◌∷◌, Option, if◌then◌else◌}
use hifi_api_rust.Cache.Policy.{cacheable}
use hifi_api_rust.Cache.Body.{Bytes, Response}
use hifi_api_rust.Cache.Query.{FormUrlencoded}
use hifi_api_rust.Cache.Store.{CacheStore}
use hifi_api_rust.Cache.Handler.{
  CachedResponse, NegativeEntry, Clock, Found, nothing, key_of, ResponseCache, invalidate_all,
  lookup, lookup_locked, answer, refresh,
}

pub data Event : Type 0 where
  -- A request arrives: whether it is a GET, its path and its query.
  arrives : (c : Clock) (is_get : Bool) (path : Bytes) (query : Option Bytes) → Event
  -- It holds the lock of its key.
  locks : (c : Clock) (path : Bytes) (query : Option Bytes) → Event
  -- The routes have answered it.
  answers : (now : ℕ) (path : Bytes) (query : Option Bytes) (r : Response) → Event
  -- They have answered a background task.
  refreshes : (now : ℕ) (path : Bytes) (query : Option Bytes) (r : Response) → Event
  -- Entries that moka drops.
  evicts : (m n : ℕ) → Event
  invalidates : Event

module _ (form : FormUrlencoded) (C : CacheStore CachedResponse)
    (N : CacheStore NegativeEntry) where
  -- The head of `cache_responses`: what is not a GET of a cacheable path goes to the routes.
  unfoldable pub request :
      Clock → Bool → Bytes → Option Bytes → ResponseCache C N → ResponseCache C N × Found
  request c is_get path query s =
      if is_get && cacheable path
      then lookup C N c path (key_of form path query) s
      else (s, nothing)

  unfoldable pub step : ResponseCache C N → Event → ResponseCache C N
  unfolding request
  step s (arrives c is_get path query) = (request c is_get path query s).0
  step s (locks c path query) = (lookup_locked C N c path (key_of form path query) s).0
  step s (answers now path query r) = (answer C N now (key_of form path query) r s).0
  step s (refreshes now path query r) = refresh C N now (key_of form path query) r s
  step s (evicts m n) = record s { cache = C.evict m s.cache; negative = N.evict n s.negative }
  step s invalidates = invalidate_all C N s

  unfoldable pub run : List Event → ResponseCache C N → ResponseCache C N
  unfolding step
  run [] s = s
  run (e ∷ es) s = run es (step s e)
