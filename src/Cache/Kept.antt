-- ===== src/Cache/Kept.antt =====
-- Where the entries of the caches in src/cache.rs come from.
use hifi_api_rust.Base.{
  ℕ, ◌+◌, ◌≡◌, refl, sym, subst, ◌⊎◌, inl, inr, true, false, List, [], ◌∷◌, Option, some, arith,
  Has, Bool-cases, Option-cases, ◌==◌,
}
use hifi_api_rust.Cache.Policy.{cacheable, negative_ttl}
use hifi_api_rust.Cache.Body.{
  Bytes, Response, Parts, parts, passthrough, collect_parts, body_too_big,
}
use hifi_api_rust.Cache.Query.{FormUrlencoded}
use hifi_api_rust.Cache.Store.{CacheStore}
use hifi_api_rust.Cache.Handler.{
  CachedResponse, NegativeEntry, Clock, key_of, ResponseCache, new, invalidate_all, find_negative,
  lookup, lookup_locked, store_answer, store_error, answer, refresh,
}
use hifi_api_rust.Cache.Events.{
  Event, arrives, locks, answers, refreshes, evicts, invalidates, request, step, run,
}

Parts-cases :
    (p : Parts)
    → ((status : ℕ) × (headers : List (Bytes × Bytes)) × (body : Bytes) × (p
          ≡ parts status headers body))
      ⊎ ((r : Response) × (p ≡ passthrough r))
Parts-cases (parts status headers body) = inl (status, headers, body, refl)
Parts-cases (passthrough r) = inr (r, refl)

module _ (form : FormUrlencoded) (C : CacheStore CachedResponse)
    (N : CacheStore NegativeEntry) where
  -- An entry holds the whole body of a 200 that the routes gave to a request with this key.
  abbrev pub IsAnswer : List Event → Bytes → CachedResponse → Type 0
  IsAnswer es key e =
      (path : Bytes) × (query : Option Bytes) × (r : Response) × (Has
          (answers e.fetched_at path query r) es
        ⊎ Has (refreshes e.fetched_at path query r) es)
      × (key_of form path query ≡ key)
      × (r.status ≡ 200)
      × (collect_parts r ≡ parts e.status e.headers e.body)

  -- An entry holds the whole body of an error that may be repeated, with the time it may be.
  abbrev pub IsError : List Event → Bytes → NegativeEntry → Type 0
  IsError es key n =
      (now : ℕ) × (ttl : ℕ) × (path : Bytes) × (query : Option Bytes) × (r : Response) × Has
        (answers now path query r) es
      × (key_of form path query ≡ key)
      × (negative_ttl r.status ≡ some ttl)
      × (r.status ≡ n.status)
      × (n.expires_at ≡ now + ttl)
      × ((status : ℕ) × (collect_parts r ≡ parts status n.headers n.body))

  pub record Kept (es : List Event) (s : ResponseCache C N) : Type 0 where
    pub answers_kept :
        (key : Bytes) (e : CachedResponse) → C.get s.cache key ≡ some e → IsAnswer es key e
    pub errors_kept :
        (key : Bytes) (n : NegativeEntry) → N.get s.negative key ≡ some n → IsError es key n

  -- The parts that hold entries are all that `Kept` reads.
  Kept-same :
      (es : List Event) (s t : ResponseCache C N)
      → s.cache ≡ t.cache
      → s.negative ≡ t.negative
      → Kept es s
      → Kept es t
  Kept-same es s t c n k = record {
    answers_kept = λ key e h. k.answers_kept key e (subst (λ m. C.get m key ≡ some e) (sym c) h);
    errors_kept = λ key e h. k.errors_kept key e (subst (λ m. N.get m key ≡ some e) (sym n) h);
  }

  find_negative-same :
      (now : ℕ) (key : Bytes) (s : ResponseCache C N)
      → ((find_negative C N now key s).0.cache ≡ s.cache)
        × ((find_negative C N now key s).0.negative ≡ s.negative)
  unfolding find_negative
  find_negative-same now key s = ground arith

  lookup-same :
      (c : Clock) (path key : Bytes) (s : ResponseCache C N)
      → ((lookup C N c path key s).0.cache ≡ s.cache)
        × ((lookup C N c path key s).0.negative ≡ s.negative)
  unfolding lookup
  lookup-same c path key s = ground arith

  lookup_locked-same :
      (c : Clock) (path key : Bytes) (s : ResponseCache C N)
      → ((lookup_locked C N c path key s).0.cache ≡ s.cache)
        × ((lookup_locked C N c path key s).0.negative ≡ s.negative)
  unfolding lookup_locked
  lookup_locked-same c path key s = ground arith

  module _ (es : List Event) (now : ℕ) (path : Bytes) (query : Option Bytes) (r : Response)
      (s : ResponseCache C N) (k : Kept es s) where
    stored :
        (j : Bytes) (status : ℕ) (headers : List (Bytes × Bytes)) (body : Bytes)
        (w : CachedResponse)
        → (Has (answers now path query r) es ⊎ Has (refreshes now path query r) es)
        → r.status ≡ 200
        → collect_parts r ≡ parts status headers body
        → let e : CachedResponse = record {
          status = status;
          headers = headers;
          body = body;
          fetched_at = now;
        } in
          C.get (C.insert (key_of form path query) e s.cache) j ≡ some w → IsAnswer es j w
    stored j status headers body w m ok p h =
        let e : CachedResponse = record {
          status = status;
          headers = headers;
          body = body;
          fetched_at = now;
        } in
        elim (C.get-insert (key_of form path query) e s.cache j w h) [
          | inl (same, new) ↦
              subst (λ v. IsAnswer es j v) (sym new) (path, query, r, m, sym same, ok, p)
          | inr old ↦ k.answers_kept j w old
        ]

    store_answer-Kept :
        (Has (answers now path query r) es ⊎ Has (refreshes now path query r) es)
        → r.status ≡ 200
        → Kept es (store_answer C N now (key_of form path query) r s).0
    unfolding store_answer
    store_answer-Kept m ok = elim (Parts-cases (collect_parts r)) [
      | inl (status, headers, body, p) ↦
          rw (p, store_answer)
            (record {
              answers_kept = λ j w h. stored j status headers body w m ok p h;
              errors_kept = k.errors_kept;
            })
      | inr (q, p) ↦ rw (p, store_answer) k
    ]

    failed :
        (ttl : ℕ) (j : Bytes) (status : ℕ) (headers : List (Bytes × Bytes)) (body : Bytes)
        (w : NegativeEntry)
        → Has (answers now path query r) es
        → negative_ttl r.status ≡ some ttl
        → collect_parts r ≡ parts status headers body
        → let n : NegativeEntry = record {
          status = r.status;
          headers = headers;
          body = body;
          expires_at = now + ttl;
        } in
          N.get (N.insert (key_of form path query) n s.negative) j ≡ some w → IsError es j w
    failed ttl j status headers body w m t p h =
        let n : NegativeEntry = record {
          status = r.status;
          headers = headers;
          body = body;
          expires_at = now + ttl;
        } in
        elim (N.get-insert (key_of form path query) n s.negative j w h) [
          | inl (same, new) ↦
              subst (λ v. IsError es j v) (sym new)
                (now, ttl, path, query, r, m, sym same, t, refl, refl, (status, p))
          | inr old ↦ k.errors_kept j w old
        ]

    store_error-Kept :
        (ttl : ℕ)
        → Has (answers now path query r) es
        → negative_ttl r.status ≡ some ttl
        → Kept es (store_error C N ttl now (key_of form path query) r s).0
    unfolding store_error
    store_error-Kept ttl m t = elim (Parts-cases (collect_parts r)) [
      | inl (status, headers, body, p) ↦
          rw (p, store_error)
            (record {
              answers_kept = k.answers_kept;
              errors_kept = λ j w h. failed ttl j status headers body w m t p h;
            })
      | inr (q, p) ↦ rw (p, store_error) k
    ]

    answer-Kept :
        Has (answers now path query r) es → Kept es (answer C N now (key_of form path query) r s).0
    unfolding answer
    answer-Kept m = elim (Bool-cases (r.status == 200)) [
      | inl ok ↦ elim (Bool-cases (body_too_big r)) [
        | inl big ↦ rw (ok, big, answer) k
        | inr small ↦ rw (ok, small, answer) (store_answer-Kept (inl m) (ground arith))
      ]
      | inr other ↦ elim (Option-cases (negative_ttl r.status)) [
        | inl never ↦ rw (other, never, answer) k
        | inr (ttl, t) ↦ elim (Bool-cases (body_too_big r)) [
          | inl big ↦ rw (other, t, big, answer) k
          | inr small ↦ rw (other, t, small, answer) (store_error-Kept ttl m t)
        ]
      ]
    ]

    refresh-Kept :
        Has (refreshes now path query r) es → Kept es (refresh C N now (key_of form path query) r s)
    unfolding refresh
    refresh-Kept m = elim (Bool-cases (r.status == 200)) [
      | inl ok ↦ rw (ok, refresh) (store_answer-Kept (inr m) (ground arith))
      | inr other ↦ rw (other, refresh) k
    ]

  step-Kept :
      (es : List Event) (s : ResponseCache C N) (e : Event)
      → Kept es s
      → Has e es
      → Kept es (step form C N s e)
  unfolding step request invalidate_all
  step-Kept es s (arrives c false path query) k m = k
  step-Kept es s (arrives c true path query) k m = elim (Bool-cases (cacheable path)) [
    | inl yes_cached ↦
        let key = key_of form path query in
        let l = lookup-same c path key s in
        rw (yes_cached, step) (Kept-same es s (lookup C N c path key s).0 (sym l.0) (sym l.1) k)
    | inr never ↦ rw (never, step) k
  ]
  step-Kept es s (locks c path query) k m =
      let key = key_of form path query in
      let l = lookup_locked-same c path key s in
      Kept-same es s (lookup_locked C N c path key s).0 (sym l.0) (sym l.1) k
  step-Kept es s (answers now path query r) k m = answer-Kept es now path query r s k m
  step-Kept es s (refreshes now path query r) k m = refresh-Kept es now path query r s k m
  step-Kept es s (evicts m n) k _ = record {
    answers_kept = λ key e h. k.answers_kept key e (C.get-evict m s.cache key e h);
    errors_kept = λ key e h. k.errors_kept key e (N.get-evict n s.negative key e h);
  }
  step-Kept es s invalidates k m = record {
    answers_kept = λ key e h. cc (h, C.get-invalidate_all s.cache key);
    errors_kept = λ key e h. cc (h, N.get-invalidate_all s.negative key);
  }

  run_from-Kept :
      (es : List Event) (fs : List Event) (s : ResponseCache C N)
      → ((f : Event) → Has f fs → Has f es)
      → Kept es s
      → Kept es (run form C N fs s)
  unfolding run
  run_from-Kept es [] s sub k = k
  run_from-Kept es (f ∷ fs) s sub k =
      run_from-Kept es fs (step form C N s f) (λ g h. sub g (inr h))
        (step-Kept es s f k (sub f (inl refl)))

  new-Kept : (es : List Event) → Kept es (new C N)
  unfolding new
  new-Kept es = record {
    answers_kept = λ key e h. cc (h, C.get-new key);
    errors_kept = λ key e h. cc (h, N.get-new key);
  }

  -- Every entry comes from an answer of the schedule.
  pub run-Kept : (es : List Event) → Kept es (run form C N es (new C N))
  run-Kept es = run_from-Kept es es (new C N) (λ f h. h) (new-Kept es)
