-- ===== src/Cache/Policy.antt =====
-- What src/cache.rs caches and for how long. A path is the list of its bytes, and ages and instants
-- are seconds.
use hifi_api_rust.Base.{
  ℕ, ◌+◌, ◌*◌, Bool, ◌||◌, List, [], ◌∷◌, Option, none, some, String, min, ltb, ◌==◌, if◌then◌else◌,
  any,
}
use hifi_api_rust.Base.Bytes.{codes, starts_with}

abbrev pub hour_secs : ℕ
hour_secs = 3600

abbrev pub max_fresh_secs : ℕ
max_fresh_secs = 12 * hour_secs

-- The prefixes of `cacheable`.
abbrev pub prefixes : List String
prefixes =
    "/info/" ∷ "/search/" ∷ "/album/" ∷ "/artist/" ∷ "/mix/" ∷ "/playlist/" ∷ "/cover/" ∷ "/lyrics/"
    ∷ "/recommendations/" ∷ []

unfoldable pub cacheable : List ℕ → Bool
cacheable path = any (λ p. starts_with (codes p) path) prefixes

unfoldable pub fresh_secs : List ℕ → ℕ
fresh_secs path =
    if starts_with (codes "/playlist/") path || starts_with (codes "/mix/") path
    then 15 * 60
    else (if starts_with (codes "/search/") path then 4 * hour_secs else max_fresh_secs)

unfoldable pub stale_secs : List ℕ → ℕ
stale_secs path = min (fresh_secs path) max_fresh_secs

pub data Freshness : Type 0 where
  fresh stale expired : Freshness

-- `freshness(path, now - fetched_at)`. An age is an `i64`, so an entry from the future is fresh: the
-- comparison is written without the subtraction.
unfoldable pub freshness : List ℕ → ℕ → ℕ → Freshness
freshness path now fetched_at =
    if ltb now (fetched_at + fresh_secs path)
    then fresh
    else (if ltb now (fetched_at + (fresh_secs path + stale_secs path)) then stale else expired)

-- `negative_ttl`
unfoldable pub negative_ttl : ℕ → Option ℕ
negative_ttl status =
    if status == 404
    then some 60
    else (if status == 429 || status == 500 || status == 502 || status == 503 || status == 504
        then some 15
        else none)
