-- ===== src/Cache/Serving.antt =====
-- What src/cache.rs serves from its caches.
use hifi_api_rust.Base.{
  ℕ, ◌+◌, ◌*◌, ◌≤◌, ◌<◌, ◌≡◌, refl, ◌⊎◌, inl, inr, Bool, true, false, List, Option, arith,
  Bool-cases, Option-cases, ltb,
}
use hifi_api_rust.Cache.Policy.{cacheable, freshness, fresh_secs, stale_secs}
use hifi_api_rust.Cache.Body.{Bytes, Reply, Label, hit, stale}
use hifi_api_rust.Cache.Query.{FormUrlencoded}
use hifi_api_rust.Cache.Store.{CacheStore}
use hifi_api_rust.Cache.Handler.{
  CachedResponse, NegativeEntry, Clock, Found, served, served_stale, nothing, key_of, serve_cached,
  serve_negative, ResponseCache, new, find_negative, lookup, count_miss, is_fresh, is_stale,
  is_expired, lookup_locked,
}
use hifi_api_rust.Cache.Events.{Event, request, run}
use hifi_api_rust.Cache.Kept.{IsAnswer, IsError, Kept, run-Kept}

is_fresh-lt :
    (path : Bytes) (now at : ℕ)
    → is_fresh (freshness path now at) ≡ true
    → now < at + fresh_secs path
unfolding freshness
is_fresh-lt path now at h = ground arith

not_fresh-le :
    (path : Bytes) (now at : ℕ)
    → is_fresh (freshness path now at) ≡ false
    → at + fresh_secs path ≤ now
unfolding freshness
not_fresh-le path now at h = ground arith

is_stale-lt :
    (path : Bytes) (now at : ℕ)
    → is_stale (freshness path now at) ≡ true
    → (at + fresh_secs path ≤ now) × (now < at + 2 * fresh_secs path)
unfolding freshness stale_secs
is_stale-lt path now at h = ground arith

is_expired-lt :
    (path : Bytes) (now at : ℕ)
    → is_expired (freshness path now at) ≡ false
    → now < at + 2 * fresh_secs path
unfolding freshness stale_secs
is_expired-lt path now at h = ground arith

module _ (form : FormUrlencoded) (C : CacheStore CachedResponse)
    (N : CacheStore NegativeEntry) where
  -- An answer from the negative cache, within the time of its error.
  abbrev pub FromError : List Event → ℕ → Bytes → Reply → Type 0
  FromError es now key r =
      (n : NegativeEntry) × IsError form C N es key n
      × (now < n.expires_at)
      × (r ≡ serve_negative n)

  -- What a request may find before it waits: an answer in its fresh period, one in the stale period
  -- that follows and is as long, or an error.
  abbrev pub Justified : List Event → Clock → Bytes → Bytes → Found → Type 0
  Justified es c path key (served r) =
      ((e : CachedResponse) × IsAnswer form C N es key e
        × (c.first < e.fetched_at + fresh_secs path)
        × (r ≡ serve_cached e hit))
      ⊎ FromError es c.third key r
  Justified es c path key (served_stale r) =
      (e : CachedResponse) × IsAnswer form C N es key e
      × (e.fetched_at + fresh_secs path ≤ c.second)
      × (c.second < e.fetched_at + 2 * fresh_secs path)
      × (r ≡ serve_cached e stale)
  Justified es c path key nothing = Unit

  -- What it may find under the lock: the label tells the age at the second reading of the clock.
  abbrev pub JustifiedLocked : List Event → Clock → Bytes → Bytes → Found → Type 0
  JustifiedLocked es c path key (served r) =
      ((e : CachedResponse) × (label : Label) × IsAnswer form C N es key e
        × (c.first < e.fetched_at + 2 * fresh_secs path)
        × ((label ≡ hit) × (c.second < e.fetched_at + fresh_secs path)
            ⊎ (label ≡ stale) × (e.fetched_at + fresh_secs path ≤ c.second))
        × (r ≡ serve_cached e label))
      ⊎ FromError es c.third key r
  JustifiedLocked es c path key (served_stale r) = ⊥
  JustifiedLocked es c path key nothing = Unit

  find_negative-Justified :
      (es : List Event) (c : Clock) (path key : Bytes) (s : ResponseCache C N)
      → Kept form C N es s
      → Justified es c path key (find_negative C N c.third key s).1
  unfolding find_negative
  find_negative-Justified es c path key s k = elim (Option-cases (N.get s.negative key)) [
    | inl e ↦ rw (e, find_negative) tt
    | inr (n, e) ↦ elim (Bool-cases (ltb c.third n.expires_at)) [
      | inl live ↦ rw (e, live, find_negative) (inr (n, k.errors_kept key n e, ground arith, refl))
      | inr over ↦ rw (e, over, find_negative) tt
    ]
  ]

  lookup-Justified :
      (es : List Event) (c : Clock) (path key : Bytes) (s : ResponseCache C N)
      → Kept form C N es s
      → Justified es c path key (lookup C N c path key s).1
  unfolding lookup
  lookup-Justified es c path key s k = elim (Option-cases (C.get s.cache key)) [
    | inl e ↦ rw (e, lookup) (find_negative-Justified es c path key s k)
    | inr (e, h) ↦ elim (Bool-cases (is_fresh (freshness path c.first e.fetched_at))) [
      | inl young ↦
          rw (h, young, lookup)
            (inl (e, k.answers_kept key e h, is_fresh-lt path c.first e.fetched_at young, refl))
      | inr older ↦ elim (Bool-cases (is_stale (freshness path c.second e.fetched_at))) [
        | inl aged ↦
            let bounds = is_stale-lt path c.second e.fetched_at aged in
            rw (h, older, aged, lookup) (e, k.answers_kept key e h, bounds.0, bounds.1, refl)
        | inr old ↦ rw (h, older, old, lookup) (find_negative-Justified es c path key s k)
      ]
    ]
  ]

  missed :
      (es : List Event) (c : Clock) (path key : Bytes) (s : ResponseCache C N)
      → Kept form C N es s
      → JustifiedLocked es c path key (count_miss C N (find_negative C N c.third key s)).1
  unfolding find_negative count_miss
  missed es c path key s k = elim (Option-cases (N.get s.negative key)) [
    | inl e ↦ rw (e, find_negative, count_miss) tt
    | inr (n, e) ↦ elim (Bool-cases (ltb c.third n.expires_at)) [
      | inl live ↦
          rw (e, live, find_negative, count_miss)
            (inr (n, k.errors_kept key n e, ground arith, refl))
      | inr over ↦ rw (e, over, find_negative, count_miss) tt
    ]
  ]

  lookup_locked-Justified :
      (es : List Event) (c : Clock) (path key : Bytes) (s : ResponseCache C N)
      → Kept form C N es s
      → JustifiedLocked es c path key (lookup_locked C N c path key s).1
  unfolding lookup_locked
  lookup_locked-Justified es c path key s k = elim (Option-cases (C.get s.cache key)) [
    | inl e ↦ rw (e, lookup_locked) (missed es c path key s k)
    | inr (e, h) ↦ elim (Bool-cases (is_expired (freshness path c.first e.fetched_at))) [
      | inl gone ↦ rw (h, gone, lookup_locked) (missed es c path key s k)
      | inr live ↦ elim (Bool-cases (is_fresh (freshness path c.second e.fetched_at))) [
        | inl young ↦
            rw (h, live, young, lookup_locked)
              (inl (
                e,
                hit,
                k.answers_kept key e h,
                is_expired-lt path c.first e.fetched_at live,
                inl (refl, is_fresh-lt path c.second e.fetched_at young),
                refl,
              ))
        | inr older ↦
            rw (h, live, older, lookup_locked)
              (inl (
                e,
                stale,
                k.answers_kept key e h,
                is_expired-lt path c.first e.fetched_at live,
                inr (refl, not_fresh-le path c.second e.fetched_at older),
                refl,
              ))
      ]
    ]
  ]

  -- After any schedule, whatever the cache serves to a request was an answer of the routes to a
  -- request of the same key. A HIT is the whole body of a 200 that was read less than the path's
  -- fresh period before, a STALE one of a 200 that is past that period and, before the lock, less
  -- than twice that period old, and a NEGATIVE one an error that may be repeated, within its time.
  -- Under the lock the age is below twice the period when the entry is found, and the label goes by
  -- the next reading of the clock.
  pub run-served :
      (es : List Event) (c : Clock) (is_get : Bool) (path : Bytes) (query : Option Bytes)
      → let s = run form C N es (new C N) in
        let key = key_of form path query in
        Justified es c path key (request form C N c is_get path query s).1
        × JustifiedLocked es c path key (lookup_locked C N c path key s).1
  unfolding request
  run-served es c false path query = (
    tt,
    lookup_locked-Justified es c path (key_of form path query) (run form C N es (new C N))
        (run-Kept form C N es),
  )
  run-served es c true path query =
      let s = run form C N es (new C N) in
      let key = key_of form path query in
      (
        elim (Bool-cases (cacheable path)) [
          | inl cached ↦
              rw (cached, request) (lookup-Justified es c path key s (run-Kept form C N es))
          | inr never ↦ rw (never, request) tt
        ],
        lookup_locked-Justified es c path key s (run-Kept form C N es),
      )
