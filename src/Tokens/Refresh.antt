-- ===== src/Tokens/Refresh.antt =====
-- `TokenManager::refresh` of src/token_manager.rs, cut at the requests to Tidal: what it does under the
-- account's lock before them, and what it makes of their outcome.
use hifi_api_rust.Base.{
  ℕ, ◌+◌, ◌-◌, ◌*◌, ◌%◌, ◌^◌, Bool, true, false, not, ◌&&◌, ◌||◌, Option, none, some, String, ltb,
  ◌==◌, if◌then◌else◌, min, max,
}
use hifi_api_rust.AppError.{
  AppError, unauthorized, upstream_error, rate_limited, service_unavailable_retry,
}
use hifi_api_rust.Accounts.State.{AccountState, is_rejected}
use hifi_api_rust.Accounts.RateLimit.{rate_limit_remaining, i64_max}
use hifi_api_rust.Accounts.Switch.{set_system_disabled}
use hifi_api_rust.Tokens.Cached.{cached_token, reject_access_token, shared_token}

-- `TokenManager::defer_retry`: the state, and the delay. `jitter` is a random number.
unfoldable pub retry_delay : ℕ → ℕ → ℕ → ℕ
retry_delay failures jitter minimum =
    max (min (30 * 2 ^ min (failures - 1) 7) 3600 + jitter % 16) minimum

unfoldable pub defer_retry : ℕ → ℕ → ℕ → AccountState → AccountState × ℕ
defer_retry now jitter minimum a =
    let failures = a.heal_failures + 1 in
    let delay = retry_delay failures jitter minimum in
    (
      record a {
        heal_failures = failures;
        heal_next_retry = min (now + min delay i64_max) i64_max;
      },
      delay,
    )

-- `TokenManager::reject_refreshed_token`
unfoldable pub reject_refreshed_token : ℕ → ℕ → String → AccountState → AccountState
unfolding reject_access_token defer_retry
reject_refreshed_token now jitter rejected a =
    (defer_retry now jitter 30 (record (reject_access_token rejected a) {
      last_refresh_error = some "Tidal HTTP 401: refreshed access token rejected";
    })).0

pub data Refresh : Type 0 where
  token : String → Refresh
  fails : AppError → Refresh
  -- Tidal must be asked.
  request : Refresh

-- `force` with the token that the caller had, or a plain need of a token.
abbrev pub serves : Bool → Option String → String → Bool
serves force previous t = not force || not (is_rejected previous t)

abbrev pub forced : Bool → Option String → Option String
forced true previous = previous
forced false previous = none

-- The last look before the requests: the token that other instances share.
unfoldable pub try_shared :
    ℕ → Option (String × ℕ) → Option String → Bool → AccountState → AccountState × Refresh
unfolding shared_token
try_shared now shared previous force a =
    let (b, found) = shared_token now shared (forced force previous) a in
    (b, elim found [ none ↦ request | some t ↦ token t ])

unfoldable pub check_wait :
    ℕ → Option (String × ℕ) → Option String → Bool → AccountState → AccountState × Refresh
unfolding try_shared rate_limit_remaining
check_wait now shared previous force a = elim (rate_limit_remaining now a) [
  | some seconds ↦ (a, fails (rate_limited seconds))
  | none ↦
      if ltb now a.heal_next_retry
      then (
        a,
        fails (service_unavailable_retry "Token refresh is cooling down" (a.heal_next_retry - now)),
      )
      else try_shared now shared previous force a
]

-- The head of `refresh`, under the lock.
unfoldable pub refresh_head :
    ℕ → Option (String × ℕ) → Option String → Bool → AccountState → AccountState × Refresh
unfolding cached_token check_wait
refresh_head now shared previous force a = elim (cached_token now a) [
  | none ↦ check_wait now shared previous force a
  | some t ↦
      if serves force previous t then (a, token t) else check_wait now shared previous force a
]

-- The requests brought a token, which is already installed.
unfoldable pub refreshed : AccountState → AccountState
refreshed a = record a {
  last_refresh_error = none;
  heal_failures = 0;
  heal_next_retry = 0;
  auth_forbidden_streak = 0;
  auth_failing_since = 0;
}

abbrev pub is_unauthorized : AppError → Bool
is_unauthorized (unauthorized d) = true
is_unauthorized _ = false

abbrev pub is_forbidden : AppError → Bool
is_forbidden (upstream_error status d) = status == 403
is_forbidden _ = false

-- The least wait that an error asks for.
abbrev pub minimum_wait : AppError → ℕ
minimum_wait (rate_limited seconds) = seconds
minimum_wait (service_unavailable_retry d seconds) = seconds
minimum_wait (unauthorized d) = 300
minimum_wait _ = 0

-- Only an explicit refusal of the credentials switches the account off.
unfoldable pub switch_off : ℕ → AppError → AccountState → AccountState
unfolding set_system_disabled
switch_off now e a = if is_unauthorized e then (set_system_disabled now true a).0 else a

-- The requests failed; `describe` is `Display` of the error, and the account manager is attached.
unfoldable pub refresh_failed :
    (AppError → String) → ℕ → ℕ → AppError → AccountState → AccountState × ℕ
unfolding switch_off defer_retry
refresh_failed describe now jitter e a =
    let b = switch_off now e a in
    defer_retry now jitter (minimum_wait e) (record b {
      auth_failing_since =
          if is_forbidden e && b.auth_failing_since == 0 then now else b.auth_failing_since;
      last_refresh_error = some (describe e);
    })
