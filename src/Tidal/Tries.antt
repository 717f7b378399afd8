-- ===== src/Tidal/Tries.antt =====
-- The accounts of `make_request_with_limit`, one after another, and `make_authed_request`, of
-- src/tidal_client.rs.
use Prim.Native.String.{String}
use hifi_api_rust.Base.{
  ℕ, zero, suc, ◌+◌, Bool, true, false, ◌&&◌, ◌||◌, [], ◌∷◌, Option, none, some, ltb, ◌==◌, min,
  max, if◌then◌else◌, ◌⊎◌, inl, inr,
}
use hifi_api_rust.AppError.{
  AppError, upstream_error, rate_limited, service_unavailable, after_failover,
}
use hifi_api_rust.Accounts.Lease.{LeaseKind}
use hifi_api_rust.Tokens.Cycle.{is_success}
use hifi_api_rust.Tidal.Services.{
  Services, Json, Session, leased, released, deliver, pause, alert_if_all_down,
}
use hifi_api_rust.Tidal.Fallback.{Failover, exhausted, schedule, with_session, at_world}
use hifi_api_rust.Tidal.Request.{attempts}

-- What the loop ends with when no account is left.
abbrev pub exhausted_error : Option AppError → AppError
exhausted_error none = service_unavailable "All accounts failed after fallback"
exhausted_error (some e) = e

-- The choice of an account: whether a pause of the preferred one was met, and the account.
pub record AccountChoice (W : Type 0) : Type 0 where
  pub state : Failover W
  pub cooldown_consumed : Bool
  pub chosen : AppError ⊎ String

module _ {W Value : Type 0} (api : Services W) (json : Json Value) where
  abbrev take_lease : String → Session W → Session W
  take_lease id s = record s { calls = leased id ∷ s.calls }

  -- Dropping the lease.
  unfoldable pub give_back : String → Session W → Session W
  give_back id s = record { world = api.give_back id s.world; calls = released id ∷ s.calls }

  -- `lease_pool_account`, with the error that the request ends with if it fails.
  unfoldable pub lease_pool_account : LeaseKind → Failover W → Failover W × (AppError ⊎ String)
  unfolding with_session at_world alert_if_all_down after_failover
  lease_pool_account kind f =
      let (w, got) = api.lease_account_for f.failed_ids kind f.session.world in
      let g = at_world w f in
      elim got [
        | inr id ↦ (with_session (take_lease id g.session) g, inr id)
        | inl e ↦
            (at_world (alert_if_all_down api e w) g, inl (after_failover e f.last_account_error))
      ]

  -- A preferred account that is paused: one other account is asked for.
  unfoldable pub lease_alternative : LeaseKind → ℕ → ℕ → String → Failover W → AccountChoice W
  unfolding schedule with_session at_world
  lease_alternative kind account_try seconds id f =
      let (g, end) = schedule account_try id (rate_limited seconds) f in
      elim end [
        | some e ↦ record { state = g; cooldown_consumed = true; chosen = inl e }
        | none ↦
            let (w, got) = api.lease_account_for g.failed_ids kind g.session.world in
            let h = at_world w g in
            elim got [
              | inr other ↦ record {
                state = with_session (take_lease other h.session) h;
                cooldown_consumed = true;
                chosen = inr other;
              }
              | inl e ↦ record {
                state = h;
                cooldown_consumed = true;
                chosen = inl (rate_limited seconds);
              }
            ]
      ]

  -- `preferred` is given to the first try only, when no account has failed.
  unfoldable pub pick : LeaseKind → ℕ → Option String → Failover W → AccountChoice W
  unfolding lease_pool_account lease_alternative with_session at_world
  pick kind account_try preferred f = elim preferred [
    | none ↦
        let (g, got) = lease_pool_account kind f in
        record { state = g; cooldown_consumed = false; chosen = got }
    | some id ↦ elim (api.rate_limit_remaining id f.session.world) [
      | some seconds ↦ lease_alternative kind account_try seconds id f
      | none ↦
          let g = at_world (api.lease id f.session.world) f in
          record {
            state = with_session (take_lease id g.session) g;
            cooldown_consumed = false;
            chosen = inr id;
          }
    ]
  ]

  -- The work on one leased account, up to the release of the lease.
  unfoldable pub on_account :
      LeaseKind → ℕ → ℕ → String → Failover W → Failover W × Option (AppError ⊎ Value)
  unfolding attempts give_back with_session at_world
  on_account kind account_try requests id f =
      let (w, client) = api.working_client_for id f.session.world in
      let g = at_world w f in
      let (h, end) : Failover W × Option (AppError ⊎ Value) = elim client [
        | some e ↦ (g, some (inl e))
        | none ↦ attempts api json kind account_try id requests false g
      ] in
      (with_session (give_back id h.session) h, end)

  -- The tries that are left.
  unfoldable pub tries :
      LeaseKind
      → (requests : ℕ) → (left account_try : ℕ) → (preferred : Option String)
      → (cooldown_consumed : Bool) → Failover W
      → Failover W × (AppError ⊎ Value)
  unfolding pick on_account exhausted
  tries kind requests zero account_try preferred consumed f =
      (f, inl (exhausted_error f.last_account_error))
  tries kind requests (suc left) account_try preferred consumed f =
      elim (consumed && ltb 0 account_try || exhausted account_try f.rate_limits) [
        | true ↦ (f, inl (exhausted_error f.last_account_error))
        | false ↦
            let p = pick kind account_try preferred f in
            elim p.chosen [
              | inl e ↦ (p.state, inl e)
              | inr id ↦
                  let (g, end) = on_account kind account_try requests id p.state in
                  elim end [
                    | some out ↦ (g, out)
                    | none ↦ tries kind requests left (account_try + 1) none p.cooldown_consumed g
                  ]
            ]
      ]

  abbrev pub first_state : Session W → Failover W
  first_state s = record {
    session = s;
    failed_ids = [];
    previewed = [];
    last_account_error = none;
    rate_limits = record { first_try = none; hits = 0 };
  }

  -- How many accounts a request may try.
  abbrev pub max_account_attempts : Option ℕ → W → ℕ
  max_account_attempts none w = max 1 (api.playback_count w)
  max_account_attempts (some limit) w = min (max 1 (api.playback_count w)) limit

  -- `make_request_with_limit`. The envelope with the version of the API is left out.
  unfoldable pub make_request :
      Option String
      → (account_limit : Option ℕ) → (requests_per_account : ℕ) → LeaseKind
      → Session W
      → Session W × (AppError ⊎ Value)
  unfolding tries
  make_request preferred account_limit requests_per_account kind s =
      let (f, out) =
        tries kind (max requests_per_account 1) (max_account_attempts account_limit s.world) 0
          preferred false (first_state s) in
      (f.session, out)

  -- `make_authed_request`; `known` says whether the account exists.
  unfoldable pub make_authed_request :
      (known : Bool) → (id token : String) → Session W → Session W × (AppError ⊎ Value)
  unfolding deliver pause
  make_authed_request known id token s =
      elim (if known then api.rate_limit_remaining id s.world else none) [
        | some seconds ↦ (s, inl (rate_limited seconds))
        | none ↦
            let (w, client) = api.working_client_for id s.world in
            elim client [
              | some e ↦ (record s { world = w }, inl e)
              | none ↦
                  let (s, answer) = deliver api id token (record s { world = w }) in
                  elim answer [
                    | inl e ↦ (s, inl e)
                    | inr r ↦
                        if r.status == 429
                        then (if known
                            then (let (t, seconds) = pause api id r "Tidal HTTP 429" s in
                                (t, inl (rate_limited seconds)))
                            else (
                              record s {
                                world = api.mark_account_error id "Tidal HTTP 429" s.world;
                              },
                              inl (rate_limited (api.retry_after_secs r.retry_after s.world)),
                            ))
                        else if is_success r.status
                        then elim r.text [
                          | inl e ↦ (s, inl e)
                          | inr body ↦ elim (json.from_str body) [
                            | none ↦ (s, inl (upstream_error r.status (json.parse_failure body)))
                            | some value ↦ (s, inr value)
                          ]
                        ]
                        else (s, inl (upstream_error r.status "Upstream API error"))
                  ]
            ]
      ]
