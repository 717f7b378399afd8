-- ===== src/Tokens/Entry.antt =====
-- `TokenManager::refresh` of src/token_manager.rs as a whole, with the requests to Tidal, and the
-- functions that call it.
use hifi_api_rust.Base.{ℕ, Bool, true, false, Option, none, some, String, ◌⊎◌, inl, inr}
use hifi_api_rust.AppError.{AppError, rate_limited, timeout}
use hifi_api_rust.Accounts.State.{AccountState}
use hifi_api_rust.Accounts.RateLimit.{rate_limit_remaining}
use hifi_api_rust.Tokens.Cached.{cached_token, reject_access_token}
use hifi_api_rust.Tokens.Refresh.{
  Refresh, token, fails, request, refresh_head, refreshed, refresh_failed,
}
use hifi_api_rust.Tokens.Cycle.{Exchange, Proxies, request_cycle}

-- What a refresh meets: the clock and Redis at its head, the state that the requests leave if they are
-- cut off after 45 seconds, and the clock and the random number at its end.
pub record Visit : Type 0 where
  pub now : ℕ
  pub shared : Option (String × ℕ)
  pub cut : Option AccountState
  pub ended : ℕ
  pub jitter : ℕ

module _ (parse : String → Option ℕ) (clean : String → Option String)
    (describe : ℕ → String → String → String) (denied : ℕ → String → String)
    (show : AppError → String) (p : Proxies) (tidal : ℕ → Bool → Exchange) (v : Visit) where
  -- `timeout(.., request_token_cycle(..))`
  unfoldable pub timed_cycle : AccountState → AccountState × (AppError ⊎ String)
  unfolding request_cycle
  timed_cycle a = elim v.cut [
    | none ↦ request_cycle parse clean describe denied p tidal a
    | some b ↦ (b, inl timeout)
  ]

  -- The `match` on their result.
  unfoldable pub conclude : AccountState × (AppError ⊎ String) → AccountState × (AppError ⊎ String)
  unfolding refreshed refresh_failed
  conclude (b, inr t) = (refreshed b, inr t)
  conclude (b, inl e) = ((refresh_failed show v.ended v.jitter e b).0, inl e)

  unfoldable pub after_head : AccountState × Refresh → AccountState × (AppError ⊎ String)
  after_head (b, token t) = (b, inr t)
  after_head (b, fails e) = (b, inl e)
  after_head (b, request) = conclude (timed_cycle b)

  -- `TokenManager::refresh`
  unfoldable pub refresh : Option String → Bool → AccountState → AccountState × (AppError ⊎ String)
  unfolding refresh_head
  refresh previous force a = after_head (refresh_head v.now v.shared previous force a)

  -- `TokenManager::get_token`
  unfoldable pub get_token : AccountState → AccountState × (AppError ⊎ String)
  unfolding rate_limit_remaining cached_token
  get_token a = elim (rate_limit_remaining v.now a) [
    | some seconds ↦ (a, inl (rate_limited seconds))
    | none ↦ elim (cached_token v.now a) [ some t ↦ (a, inr t) | none ↦ refresh none false a ]
  ]

  -- `TokenManager::refresh_token`; `previous` is the token that the caller saw before the lock.
  unfoldable pub refresh_token : Option String → AccountState → AccountState × (AppError ⊎ String)
  refresh_token previous a = refresh previous true a

  -- `TokenManager::refresh_after_unauthorized`
  unfoldable pub refresh_after_unauthorized :
      String → AccountState → AccountState × (AppError ⊎ String)
  unfolding reject_access_token
  refresh_after_unauthorized rejected a =
      refresh (some rejected) true (reject_access_token rejected a)
