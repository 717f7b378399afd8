-- ===== src/Cache/Handler.antt =====
-- `cache_responses` of src/cache.rs, cut at its waits: before the per-key lock, under it, and after
-- the answer of the routes. `now_secs` is read several times, so each stretch takes several instants.
use hifi_api_rust.Base.{
  ℕ, ◌+◌, Bool, true, false, not, List, ◌∷◌, ◌++◌, Option, none, some, ltb, ◌==◌, if◌then◌else◌,
}
use hifi_api_rust.Cache.Policy.{freshness, Freshness, fresh, stale, expired, negative_ttl}
use hifi_api_rust.Cache.Body.{
  Bytes, Response, Reply, Label, hit, negative, miss, skip, build_response, collect_parts, parts,
  passthrough, body_too_big,
}
use hifi_api_rust.Cache.Query.{FormUrlencoded, normalize_query}
use hifi_api_rust.Cache.Store.{CacheStore}

pub record CachedResponse : Type 0 where
  pub status : ℕ
  pub headers : List (Bytes × Bytes)
  pub body : Bytes
  pub fetched_at : ℕ

pub record NegativeEntry : Type 0 where
  pub status : ℕ
  pub headers : List (Bytes × Bytes)
  pub body : Bytes
  pub expires_at : ℕ

-- The key of a request: `format!("{}?{}", path, normalize_query(query))`.
unfoldable pub key_of : FormUrlencoded → Bytes → Option Bytes → Bytes
key_of form path query = path ++ b'?' ∷ normalize_query form query

abbrev pub serve_cached : CachedResponse → Label → Reply
serve_cached e label = build_response e.status e.headers e.body label

abbrev pub serve_negative : NegativeEntry → Reply
serve_negative e = build_response e.status e.headers e.body negative

-- The instants at which a stretch reads the clock.
pub record Clock : Type 0 where
  pub first : ℕ
  pub second : ℕ
  pub third : ℕ

-- What a request finds.
pub data Found : Type 0 where
  -- Answered at once.
  served : Reply → Found
  -- Answered at once, and the routes are asked again in the background.
  served_stale : Reply → Found
  -- Nothing to serve: wait for the lock of the key, or ask the routes.
  nothing : Found

abbrev pub is_fresh : Freshness → Bool
is_fresh fresh = true
is_fresh stale = false
is_fresh expired = false

abbrev pub is_stale : Freshness → Bool
is_stale fresh = false
is_stale stale = true
is_stale expired = false

abbrev pub is_expired : Freshness → Bool
is_expired fresh = false
is_expired stale = false
is_expired expired = true

module _ (C : CacheStore CachedResponse) (N : CacheStore NegativeEntry) where
  pub record ResponseCache : Type 0 where
    pub cache : C.Table
    pub negative : N.Table
    pub hits : ℕ
    pub misses : ℕ
    pub coalesced : ℕ
    pub stale : ℕ
    pub negative_hits : ℕ

  -- `ResponseCache::new`
  unfoldable pub new : ResponseCache
  new = record {
    cache = C.new;
    negative = N.new;
    hits = 0;
    misses = 0;
    coalesced = 0;
    stale = 0;
    negative_hits = 0;
  }

  -- `ResponseCache::invalidate_all`, without the verdicts on substituted tracks.
  unfoldable pub invalidate_all : ResponseCache → ResponseCache
  invalidate_all s = record s {
    cache = C.invalidate_all s.cache;
    negative = N.invalidate_all s.negative;
  }

  -- The look into the negative cache.
  unfoldable pub find_negative : ℕ → Bytes → ResponseCache → ResponseCache × Found
  find_negative now key s = elim (N.get s.negative key) [
    | none ↦ (s, nothing)
    | some n ↦
        if ltb now n.expires_at
        then (record s { negative_hits = s.negative_hits + 1 }, served (serve_negative n))
        else (s, nothing)
  ]

  -- The part before the lock, for a GET of a cacheable path.
  unfoldable pub lookup : Clock → Bytes → Bytes → ResponseCache → ResponseCache × Found
  unfolding find_negative
  lookup c path key s = elim (C.get s.cache key) [
    | none ↦ find_negative c.third key s
    | some e ↦
        if is_fresh (freshness path c.first e.fetched_at)
        then (record s { hits = s.hits + 1 }, served (serve_cached e hit))
        else (if is_stale (freshness path c.second e.fetched_at)
            then (
              record s { hits = s.hits + 1; stale = s.stale + 1 },
              served_stale (serve_cached e Label.stale),
            )
            else find_negative c.third key s)
  ]

  -- The part under the lock: a second look, and a miss if it finds nothing.
  unfoldable pub count_miss : ResponseCache × Found → ResponseCache × Found
  count_miss (s, served r) = (s, served r)
  count_miss (s, served_stale r) = (s, served_stale r)
  count_miss (s, nothing) = (record s { misses = s.misses + 1 }, nothing)

  unfoldable pub lookup_locked : Clock → Bytes → Bytes → ResponseCache → ResponseCache × Found
  unfolding find_negative count_miss
  lookup_locked c path key s = elim (C.get s.cache key) [
    | none ↦ count_miss (find_negative c.third key s)
    | some e ↦
        if not (is_expired (freshness path c.first e.fetched_at))
        then (
          record s { hits = s.hits + 1; coalesced = s.coalesced + 1 },
          served (
              serve_cached e
                (if is_fresh (freshness path c.second e.fetched_at) then hit else Label.stale)),
        )
        else count_miss (find_negative c.third key s)
  ]

  -- A 200 of the routes: it is stored if its body is small.
  unfoldable pub store_answer : ℕ → Bytes → Response → ResponseCache → ResponseCache × Reply
  store_answer now key r s = elim (collect_parts r) [
    | parts status headers body ↦
        let e : CachedResponse = record {
          status = status;
          headers = headers;
          body = body;
          fetched_at = now;
        } in
        (record s { cache = C.insert key e s.cache }, serve_cached e miss)
    | passthrough p ↦ (s, record { label = some skip; response = p })
  ]

  -- An error that may be repeated: it is stored for a short time.
  unfoldable pub store_error : ℕ → ℕ → Bytes → Response → ResponseCache → ResponseCache × Reply
  store_error ttl now key r s = elim (collect_parts r) [
    | parts status headers body ↦
        let n : NegativeEntry = record {
          status = r.status;
          headers = headers;
          body = body;
          expires_at = now + ttl;
        } in
        (
          record s { negative = N.insert key n s.negative },
          build_response r.status headers body miss,
        )
    | passthrough p ↦ (s, record { label = some skip; response = p })
  ]

  -- What is done with the answer of the routes after a miss; `now` is when its body has been read.
  unfoldable pub answer : ℕ → Bytes → Response → ResponseCache → ResponseCache × Reply
  unfolding store_answer store_error
  answer now key r s =
      if r.status == 200
      then (if body_too_big r
          then (s, record { label = some skip; response = r })
          else store_answer now key r s)
      else (elim (negative_ttl r.status) [
        | none ↦ (s, record { label = none; response = r })
        | some ttl ↦
            if body_too_big r
            then (s, record { label = none; response = r })
            else store_error ttl now key r s
      ])

  -- What the background task does with the answer.
  unfoldable pub refresh : ℕ → Bytes → Response → ResponseCache → ResponseCache
  unfolding store_answer
  refresh now key r s = if r.status == 200 then (store_answer now key r s).0 else s
