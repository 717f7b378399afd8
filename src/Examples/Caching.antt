-- ===== src/Examples/Caching.antt =====
-- src/cache.rs at concrete inputs, and the source's own tests of freshness.
use mathlib.Core.List.{Perm}
use hifi_api_rust.Base.{
  ℕ, ◌*◌, ◌≤◌, ◌<◌, ◌≡◌, ◌↔◌, ◌⊎◌, refl, true, List, [], ◌∷◌, ◌++◌, map, Option, none, some, length,
}
use hifi_api_rust.Base.Bytes.{codes}
use hifi_api_rust.Cache.Policy.{cacheable, fresh_secs, stale_secs, freshness, stale, expired}
use hifi_api_rust.Cache.Body.{
  Bytes, Response, hit, body_too_big, collect, collect_parts, parts, passthrough, bad_gateway,
  text_headers, flat, max_body_bytes,
}
use hifi_api_rust.Cache.Collect.{collect_parts-cases}
use hifi_api_rust.Cache.Query.{normalize_query}
use hifi_api_rust.Cache.Keys.{pairs_of, normalize_query-perm}
use hifi_api_rust.Cache.Store.{CacheStore}
use hifi_api_rust.Cache.Handler.{
  CachedResponse, NegativeEntry, Clock, served, key_of, new, lookup_locked, serve_cached, lookup,
  answer,
}
use hifi_api_rust.Cache.Events.{Event, arrives, locks, answers, request, run}
use hifi_api_rust.Cache.Serving.{Justified, JustifiedLocked, run-served}
use hifi_api_rust.Examples.Form.{plain_form, plain_store}

-- What a run of the cache computes with.
program : Unit {0}
unfolding cacheable freshness fresh_secs stale_secs body_too_big collect collect_parts text_headers
    key_of normalize_query lookup lookup_locked answer request run new
program = tt

playlist_turns_stale : freshness (codes "/playlist/") (15 * 60) 0 ≡ stale
unfolding program
playlist_turns_stale = refl

search_expires : freshness (codes "/search/") (8 * 3600) 0 ≡ expired
unfolding program
search_expires = refl

abbrev C : CacheStore CachedResponse
C = plain_store CachedResponse

abbrev N : CacheStore NegativeEntry
N = plain_store NegativeEntry

abbrev at : ℕ → Clock
at t = record { first = t; second = t; third = t }

abbrev path : Bytes
path = codes "/info/"

abbrev answer_ok : Response
answer_ok = record {
  status = 200;
  headers = (codes "content-type", some (codes "application/json")) ∷ [];
  stream = some (codes "{") ∷ some (codes "}") ∷ [];
}

-- A miss that the routes answer at 1005.
abbrev schedule : List Event
schedule =
    arrives (at 1000) true path none
    ∷ locks (at 1001) path none
    ∷ answers 1005 path none answer_ok
    ∷ []

run-served_example :
    let s = run plain_form C N schedule (new C N) in
    let key = key_of plain_form path none in
    Justified plain_form C N schedule
      (at 2000)
      path
      key
      (request plain_form C N (at 2000) true path none s).1
    × JustifiedLocked plain_form C N schedule
        (at 2000)
        path
        key
        (lookup_locked C N (at 2000) path key s).1
run-served_example = run-served plain_form C N schedule (at 2000) true path none

hit_later :
    (request plain_form C N (at 2000) true path none (run plain_form C N schedule (new C N))).1
    ≡ served (
        serve_cached
          (record {
            status = 200;
            headers = (codes "content-type", codes "application/json") ∷ [];
            body = codes "{}";
            fetched_at = 1005;
          })
          hit)
unfolding program
hit_later = refl

collect_parts-cases_example :
    ((chunks : List Bytes) × (answer_ok.stream ≡ map some chunks)
      × (length (flat chunks) ≤ max_body_bytes)
      × (collect_parts answer_ok
          ≡ parts answer_ok.status (text_headers answer_ok.headers) (flat chunks)))
    ⊎ ((chunks : List Bytes) × (rest : List (Option Bytes)) × (answer_ok.stream
          ≡ map some chunks ++ rest)
        × (max_body_bytes < length (flat chunks))
        × (collect_parts answer_ok ≡ passthrough answer_ok))
    ⊎ ((chunks : List Bytes) × (rest : List (Option Bytes)) × (answer_ok.stream
          ≡ map some chunks ++ none ∷ rest)
        × (length (flat chunks) ≤ max_body_bytes)
        × (collect_parts answer_ok ≡ passthrough bad_gateway))
collect_parts-cases_example = collect_parts-cases answer_ok

abbrev query : Option Bytes
query = some (0 ∷ 5 ∷ 1 ∷ 7 ∷ 0 ∷ 4 ∷ 1 ∷ 9 ∷ [])

abbrev reordered : Option Bytes
reordered = some (0 ∷ 4 ∷ 1 ∷ 9 ∷ 0 ∷ 5 ∷ 1 ∷ 7 ∷ [])

normalize_query-perm_example :
    (normalize_query plain_form query ≡ normalize_query plain_form reordered)
    ↔ Perm (pairs_of plain_form query) (pairs_of plain_form reordered)
normalize_query-perm_example = normalize_query-perm plain_form query reordered

one_key : normalize_query plain_form query ≡ normalize_query plain_form reordered
unfolding program
one_key = refl
