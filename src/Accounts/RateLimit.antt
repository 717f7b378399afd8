-- ===== src/Accounts/RateLimit.antt =====
-- The 429 pauses of src/account_manager.rs.
use hifi_api_rust.Base.{
  ℕ, ◌+◌, ◌-◌, ◌*◌, ◌^◌, ◌||◌, ◌&&◌, Option, none, some, String, min, max, ltb, leb, ◌==◌,
  if◌then◌else◌,
}
use hifi_api_rust.Accounts.State.{AccountState}

abbrev pub default_rate_limit_secs : ℕ
default_rate_limit_secs = 30

abbrev pub rate_limit_max_secs : ℕ
rate_limit_max_secs = 15 * 60

abbrev pub rate_limit_forgive_secs : ℕ
rate_limit_forgive_secs = 30 * 60

-- `u64::MAX` and `i64::MAX`
abbrev pub u64_max : ℕ
u64_max = 2 ^ 64 - 1

abbrev pub i64_max : ℕ
i64_max = 2 ^ 63 - 1

-- `AccountManager::retry_after_secs`; `parse` reads the header as seconds or as an HTTP date.
unfoldable pub retry_after_secs : (String → Option ℕ) → Option String → ℕ
retry_after_secs parse value =
    max
      (elim value [
        | none ↦ default_rate_limit_secs
        | some raw ↦ elim (parse raw) [ none ↦ default_rate_limit_secs | some secs ↦ secs ]
      ])
      1

-- `AccountManager::rate_limit_remaining`
unfoldable pub rate_limit_remaining : ℕ → AccountState → Option ℕ
rate_limit_remaining now a =
    let remaining = a.rate_limited_until - now in if ltb 0 remaining then some remaining else none

-- `AccountManager::rate_limit_pause_secs`, from the seconds that `retry_after_secs` gives.
unfoldable pub rate_limit_pause_secs : ℕ → ℕ → ℕ
rate_limit_pause_secs base strike =
    let doubled = min (base * 2 ^ min (strike - 1) 16) u64_max in
    min doubled (max rate_limit_max_secs base)

-- `AccountManager::rate_limit_heat`
unfoldable pub rate_limit_heat : ℕ → AccountState → ℕ
rate_limit_heat now a =
    if a.rate_limited_until == 0 || ltb rate_limit_forgive_secs (now - a.rate_limited_until)
    then 0
    else a.rate_limit_strikes

-- The strike that a 429 counts as, in `pause_account`.
unfoldable pub strike : ℕ → AccountState → ℕ
strike now a =
    if ltb now a.rate_limited_until
    then max a.rate_limit_strikes 1
    else (if ltb 0 a.rate_limited_until && leb (now - a.rate_limited_until) rate_limit_forgive_secs
        then a.rate_limit_strikes + 1
        else 1)

-- The strikes that are stored: a 429 during a pause leaves the counter alone.
unfoldable pub stored_strikes : ℕ → AccountState → ℕ
unfolding strike
stored_strikes now a = if ltb now a.rate_limited_until then a.rate_limit_strikes else strike now a

-- `AccountManager::pause_account` in memory, and the seconds that it returns.
unfoldable pub pause_account :
    (String → Option ℕ) → ℕ → Option String → AccountState → AccountState × ℕ
pause_account parse now retry_after a =
    let seconds = rate_limit_pause_secs (retry_after_secs parse retry_after) (strike now a) in
    let until = min (now + min seconds i64_max) i64_max in
    let paused = record a {
      rate_limit_strikes = stored_strikes now a;
      rate_limited_until = max a.rate_limited_until until;
    } in
    (paused, elim (rate_limit_remaining now paused) [ none ↦ seconds | some s ↦ s ])
