-- ===== src/Tidal/Overflow.antt =====
-- What a catalog request of src/tidal_client.rs does over all its parts.
use Prim.Native.String.{String}
use native.Mathlib.Nat.{mul-le-mul_right}
use hifi_api_rust.Base.{
  ℕ, ◌+◌, ◌*◌, ◌≤◌, ◌≡◌, refl, subst, sym, ◌⊎◌, inl, inr, Bool, true, false, ◌&&◌, List, [], Option,
  none, some, arith, append-Has, split_bool, split_option, split_sum, ◌==◌, max,
}
use hifi_api_rust.AppError.{AppError, upstream_error, rate_limited}
use hifi_api_rust.Accounts.Lease.{metadata}
use hifi_api_rust.Tidal.Services.{Services, Json, Response, Session, Call, sent}
use hifi_api_rust.Tidal.Tries.{make_request, max_account_attempts}
use hifi_api_rust.Tidal.CatalogAccount.{read_body, catalog_static_get}
use hifi_api_rust.Tidal.Catalog.{
  Settings, CatalogEnd, answered, to_pool, catalog_accounts, pool_request, overflow, catalog_rest,
  after_static, catalog_get,
}
use hifi_api_rust.Tidal.Trace.{sends, holder, IsUnderLease}
use hifi_api_rust.Tidal.Runs.{request-Answers}
use hifi_api_rust.Tidal.CatalogAttempts.{catalog_static_get-Gives}
use hifi_api_rust.Tidal.Segments.{
  Segment, Segment-nothing, Segment-then, Segment-append, Brought, Gives,
}
use hifi_api_rust.Tidal.CatalogSlots.{EndsWith, catalog_accounts-EndsWith}

module _ {W Value : Type 0} (api : Services W) (json : Json Value) where
  Shown-read :
      (r : Response) (body : String) (value : Value)
      → r.text ≡ inr body
      → json.from_str body ≡ some value
      → read_body api json r ≡ inr value
  unfolding read_body
  Shown-read r body value text read =
      subst
        (λ t.
          (elim t [
            | inl e ↦ inl e
            | inr body ↦ elim (json.from_str body) [
              | none ↦ inl (upstream_error r.status (json.parse_failure body))
              | some value ↦ inr value
            ]
          ])
          ≡ inr value)
        (sym text) (rw read refl)

  pool_request-Gives :
      (account_limit : Option ℕ) (requests n : ℕ) (s : Session W)
      → max_account_attempts api json account_limit s.world ≤ n
      → let r = pool_request api json account_limit requests s in
        Gives api json (n * max requests 1) s.calls r.0.calls r.1
  unfolding pool_request make_request
  pool_request-Gives account_limit requests n s le =
      let (d, found) = request-Answers api json none account_limit requests metadata s.world in
      let cs =
        (make_request api json none account_limit requests metadata
          (record { world = s.world; calls = [] })).0.calls in
      let bound = mul-le-mul_right (max requests 1) le in
      (
        Segment-append (n * max requests 1) cs s.calls d.free d.under
            (omega (arith, d.requests, bound)),
        λ v h.
            let (id, (token, r, has, (ok, body, text, read, plain))) = found v h in
            (
              sent id token (some r),
              r,
              append-Has (sent id token (some r)) cs s.calls (inl has),
              refl,
              ok,
              Shown-read r body v text read,
            ),
      )

  overflow-Gives :
      (config : Settings) (limited : Option AppError) (busy : Bool) (n : ℕ) (s : Session W)
      → ((w : W) → api.playback_count w ≤ n)
      → let r = overflow api json config limited busy s in
        Gives api json (max 1 n * max config.requests_per_account 1) s.calls r.0.calls r.1
  unfolding overflow
  overflow-Gives config limited busy n s count =
      let requests = config.requests_per_account in
      let P : Session W × (AppError ⊎ Value) → Type 0 =
        λ z. Gives api json (max 1 n * max requests 1) s.calls z.0.calls z.1 in
      let all = count s.world in
      split_option P
        (elim limited [
          | some e ↦ some e
          | none ↦ elim (api.catalog_rate_limit_remaining s.world) [
            | none ↦ none
            | some seconds ↦ some (rate_limited seconds)
          ]
        ])
        _ _
        (λ a.
          split_bool P (busy && api.playback_count s.world == 0) _ _
            (λ b. (Segment-nothing _ s.calls, λ v h. cc h))
            (λ b. pool_request-Gives none requests (max 1 n) s (ground (arith, all))))
        (λ previous_429 a.
          let (done, shown) =
            pool_request-Gives (some 1) requests (max 1 n) s (ground (arith, all)) in
          let r = pool_request api json (some 1) requests s in
          split_sum P r.1 _ _ (λ e b. (done, λ v h. cc h))
            (λ value b. (done, λ v h. shown v (cc (b, h)))))

  -- The end of a whole catalog request.
  abbrev Ends : ℕ → List Call → Session W × (ℕ × Option (AppError ⊎ Value)) → Type 0
  Ends n cs (t, (until, end)) =
      (out : AppError ⊎ Value) × (end ≡ some out) × Gives api json n cs t.calls out

  -- What follows the loop over the catalog accounts.
  followed :
      (config : Settings) (until n m k : ℕ) (cs : List Call) (s : Session W)
      (z : Session W × CatalogEnd Value)
      → ((w : W) → api.playback_count w ≤ n)
      → Segment m cs s.calls
      → EndsWith api json k s.calls z
      → Ends (m + k + max 1 n * max config.requests_per_account 1) cs (elim z.1 [
        | answered out ↦ (z.0, (until, some out))
        | to_pool limited tried busy ↦ elim tried [
          | true ↦ (z.0, (until, elim limited [ none ↦ none | some e ↦ some (inl e) ]))
          | false ↦ let r = overflow api json config limited busy z.0 in (r.0, (until, some r.1))
        ]
      ])
  followed config until n m k cs s (t, answered out) count before (a, shown) = (
    out,
    refl,
    (
      Segment-then m k (m + k + max 1 n * max config.requests_per_account 1) cs s.calls t.calls
          before a (omega arith),
      shown,
    ),
  )
  followed config until n m k cs s (t, to_pool limited true busy) count before (a, untried) =
      absurd (cc untried)
  followed config until n m k cs s (t, to_pool limited false busy) count before (a, untried) =
      let (done, shown) = overflow-Gives config limited busy n t count in
      let u = (overflow api json config limited busy t).0.calls in
      let more = max 1 n * max config.requests_per_account 1 in
      (
        _,
        refl,
        (
          Segment-then m (k + more) (m + k + more) cs s.calls u before
              (Segment-then k more (k + more) s.calls t.calls u a done (omega arith)) (omega arith),
          shown,
        ),
      )

  catalog_rest-Ends :
      (config : Settings) (until : ℕ) (limited : Option AppError) (n m : ℕ) (cs : List Call)
      (s : Session W)
      → ((w : W) → api.playback_count w ≤ n)
      → Segment m cs s.calls
      → Ends
          (m + 2 * max config.requests_per_account 1 + max 1 n * max config.requests_per_account 1)
          cs
          (catalog_rest api json config until limited s)
  unfolding catalog_rest
  catalog_rest-Ends config until limited n m cs s count before =
      let q = max config.requests_per_account 1 in
      followed config until n m (2 * q) cs s (catalog_accounts api json config 2 limited false s)
        count before (catalog_accounts-EndsWith api json config 2 limited s)

  -- A catalog request comes to an answer: it never panics. It is sent at most once with the static
  -- token, as often as two catalog accounts and then the pool's accounts are allowed, under a slot or a
  -- lease of the account each time, none of which is left at the end. A value that it returns is the
  -- body of a successful answer to it. Here no more than `n` accounts serve playback.
  pub catalog_get-Ends :
      (config : Settings) (until n : ℕ) (w : W)
      → ((w : W) → api.playback_count w ≤ n)
      → let r = catalog_get api json config until (record { world = w; calls = [] }) in
        (out : AppError ⊎ Value) × (r.1.1 ≡ some out)
        × (sends r.0.calls
            ≤ 1
              + 2 * max config.requests_per_account 1
              + max 1 n * max config.requests_per_account 1)
        × (holder r.0.calls ≡ none)
        × IsUnderLease r.0.calls
        × ((value : Value) → out ≡ inr value → Brought api json value r.0.calls)
  unfolding catalog_get after_static
  catalog_get-Ends config until n w count =
      let s : Session W = record { world = w; calls = [] } in
      let q = max config.requests_per_account 1 in
      let P = Ends (1 + 2 * q + max 1 n * q) [] in
      let r = catalog_static_get api json until s in
      let (first, shown) = catalog_static_get-Gives api json until s in
      let whole : P (catalog_get api json config until s) =
        split_bool
          (λ (z : Session W × (ℕ × Option (AppError ⊎ Value))). P (after_static api json config z))
          config.has_catalog_token _ _
          (λ a.
            split_sum P r.1.1 _ _ (λ e b. catalog_rest-Ends config r.1.0 _ n 1 [] r.0 count first)
              (λ value b. (
                inr value,
                refl,
                (
                  Segment-then 1 0 (1 + 2 * q + max 1 n * q) [] r.0.calls r.0.calls first
                      (Segment-nothing 0 r.0.calls) (omega arith),
                  λ v h. shown v (cc (b, h)),
                ),
              )))
          (λ a. catalog_rest-Ends config until none n 1 [] s count (Segment-nothing 1 [])) in
      let (out, same, (done, brought)) = whole in
      let (free, under) = done.free (refl, tt) in
      (out, same, omega (arith, done.requests), free, under, brought)
