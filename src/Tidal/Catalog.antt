-- ===== src/Tidal/Catalog.antt =====
-- The catalog requests of src/tidal_client.rs: the static token, the catalog accounts, then the pool of
-- playback accounts. A slot of a catalog account counts as its lease.
use Prim.Native.String.{String}
use hifi_api_rust.Base.{
  ℕ, zero, suc, Bool, true, false, ◌&&◌, ◌||◌, [], ◌∷◌, ◌++◌, Option, none, some, ◌==◌,
  if◌then◌else◌, ◌⊎◌, inl, inr,
}
use hifi_api_rust.AppError.{
  AppError, rate_limited, service_unavailable, accounts_busy, catalog_busy_text,
}
use hifi_api_rust.Accounts.Lease.{metadata}
use hifi_api_rust.Tidal.Services.{
  Services, Json, Session, slot, all_busy, unavailable, leased, released,
}
use hifi_api_rust.Tidal.Request.{is_rate_limited}
use hifi_api_rust.Tidal.Tries.{make_request}
use hifi_api_rust.Tidal.CatalogAccount.{at, catalog_static_get, catalog_account_get}

-- The settings that catalog requests read.
pub record Settings : Type 0 where
  pub has_catalog_token : Bool
  pub catalog_concurrency : ℕ
  pub requests_per_account : ℕ

-- What the loop over the catalog accounts leaves: an answer, or the way to the pool.
pub data CatalogEnd (Value : Type 0) : Type 0 where
  answered : AppError ⊎ Value → CatalogEnd Value
  to_pool :
      (rate_limit_error : Option AppError) (fallback_tried catalog_busy : Bool) → CatalogEnd Value

abbrev pub is_unavailable : AppError → Bool
is_unavailable (service_unavailable text) = true
is_unavailable e = false

module _ {W Value : Type 0} (api : Services W) (json : Json Value) where
  -- The request on a claimed slot, up to the end of the claim.
  unfoldable pub on_slot : Settings → String → Session W → Session W × (AppError ⊎ Value)
  unfolding catalog_account_get
  on_slot config id s =
      let (t, out) =
        catalog_account_get api json config.requests_per_account id
          (record s { calls = leased id ∷ s.calls }) in
      (record { world = api.release_slot id t.world; calls = released id ∷ t.calls }, out)

  -- The loop over the catalog accounts, with the rounds that are left.
  unfoldable pub catalog_accounts :
      Settings
      → (left : ℕ) → (rate_limit_error : Option AppError) → (fallback_tried : Bool) → Session W
      → Session W × CatalogEnd Value
  unfolding on_slot
  catalog_accounts config zero limited tried s = (s, to_pool limited tried false)
  catalog_accounts config (suc left) limited tried s = elim (if tried then limited else none) [
    | some e ↦ (s, answered (inl e))
    | none ↦
        let (w, claim) = api.claim_catalog_slot config.catalog_concurrency s.world in
        elim claim [
          | all_busy ↦ (at api json w s, to_pool limited tried true)
          | unavailable ↦ (at api json w s, to_pool limited tried false)
          | slot id ↦
              let now_tried = tried || elim limited [ none ↦ false | some e ↦ true ] in
              let (t, out) = on_slot config id (at api json w s) in
              elim out [
                | inr value ↦ (t, answered (inr value))
                | inl e ↦ elim now_tried [
                  | true ↦ (t, answered (inl e))
                  | false ↦ elim (is_rate_limited e) [
                    | true ↦ catalog_accounts config left (some e) false t
                    | false ↦ (t, to_pool limited false false)
                  ]
                ]
              ]
        ]
  ]

  -- A request of the pool, whose calls come before those of the caller.
  unfoldable pub pool_request :
      (account_limit : Option ℕ) → ℕ → Session W → Session W × (AppError ⊎ Value)
  unfolding make_request
  pool_request account_limit requests s =
      let (t, out) =
        make_request api json none account_limit requests metadata
          (record { world = s.world; calls = [] }) in
      (record { world = t.world; calls = t.calls ++ s.calls }, out)

  -- The end of `catalog_get`, after the loop.
  unfoldable pub overflow :
      Settings
      → (rate_limit_error : Option AppError) → (catalog_busy : Bool) → Session W
      → Session W × (AppError ⊎ Value)
  unfolding pool_request
  overflow config limited busy s =
      let previous : Option AppError = elim limited [
        | some e ↦ some e
        | none ↦ elim (api.catalog_rate_limit_remaining s.world) [
          | none ↦ none
          | some seconds ↦ some (rate_limited seconds)
        ]
      ] in
      elim previous [
        | some previous_429 ↦
            let (t, out) = pool_request (some 1) config.requests_per_account s in
            elim out [
              | inr value ↦ (t, inr value)
              | inl e ↦ (t, inl (if is_unavailable e then previous_429 else e))
            ]
        | none ↦
            if busy && api.playback_count s.world == 0
            then (s, inl (accounts_busy catalog_busy_text 1))
            else pool_request none config.requests_per_account s
      ]

  -- The part of `catalog_get` after the static token. A result is `none` where the source would panic,
  -- at the `unwrap` of an error that is not there.
  unfoldable pub catalog_rest :
      Settings
      → (paused_until : ℕ) → (rate_limit_error : Option AppError) → Session W
      → Session W × (ℕ × Option (AppError ⊎ Value))
  unfolding catalog_accounts overflow
  catalog_rest config paused_until limited s =
      let (t, end) = catalog_accounts config 2 limited false s in
      elim end [
        | answered out ↦ (t, (paused_until, some out))
        | to_pool later_limited tried busy ↦ elim tried [
          | true ↦ (t, (paused_until, elim later_limited [ none ↦ none | some e ↦ some (inl e) ]))
          | false ↦
              let (u, out) = overflow config later_limited busy t in (u, (paused_until, some out))
        ]
      ]

  -- What follows the static token, if it was tried.
  unfoldable pub after_static :
      Settings
      → Session W × (ℕ × Option (AppError ⊎ Value))
      → Session W × (ℕ × Option (AppError ⊎ Value))
  unfolding catalog_rest
  after_static config (t, (paused_until, first)) = elim first [
    | none ↦ catalog_rest config paused_until none t
    | some out ↦ elim out [
      | inr value ↦ (t, (paused_until, some (inr value)))
      | inl e ↦ catalog_rest config paused_until (if is_rate_limited e then some e else none) t
    ]
  ]

  -- `catalog_get`, with the pause of the static token.
  unfoldable pub catalog_get :
      Settings → ℕ → Session W → Session W × (ℕ × Option (AppError ⊎ Value))
  unfolding catalog_static_get after_static
  catalog_get config until s = after_static config (
      if config.has_catalog_token
      then (let (t, (paused_until, out)) = catalog_static_get api json until s in
          (t, (paused_until, some out)))
      else (s, (until, none)))
