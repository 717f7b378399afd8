-- ===== src/Tokens/Cached.antt =====
-- Which access token of an account may be used, in src/token_manager.rs. Rows in the database and
-- observations of the uptime are left out.
use text.Mathlib.Text.{◌==◌ as str_eq}
use hifi_api_rust.Base.{
  ℕ, ◌+◌, Bool, true, false, ◌||◌, Option, none, some, String, leb, if◌then◌else◌,
}
use hifi_api_rust.Accounts.State.{AccountState, is_rejected}

-- `TokenManager::cached_token`
unfoldable pub cached_token : ℕ → AccountState → Option String
cached_token now a = elim a.access_token [
  | none ↦ none
  | some token ↦
      if str_eq token "" || leb a.token_expires_at now || is_rejected a.rejected_access_token token
      then none
      else some token
]

abbrev pub is_missing : Option String → Bool
is_missing none = true
is_missing (some t) = false

-- `TokenManager::needs_renewal`
unfoldable pub needs_renewal : ℕ → AccountState → Bool
unfolding cached_token
needs_renewal now a = leb a.token_expires_at (now + 300) || is_missing (cached_token now a)

-- `TokenManager::reject_access_token`
unfoldable pub reject_access_token : String → AccountState → AccountState
reject_access_token rejected a =
    if is_rejected a.access_token rejected
    then record a { rejected_access_token = some rejected }
    else a

-- What Redis holds of the account's token: the token and the end of its life.
unfoldable pub shared_token :
    ℕ → Option (String × ℕ) → Option String → AccountState → AccountState × Option String
shared_token now none previous a = (a, none)
shared_token now (some (token, expires)) previous a =
    if str_eq token ""
      || leb expires (now + 60)
      || is_rejected previous token
      || is_rejected a.rejected_access_token token
    then (a, none)
    else (
      record a {
        access_token = some token;
        token_expires_at = expires;
        last_refresh_error = none;
        auth_failing_since = 0;
      },
      some token,
    )
