-- ===== src/Autoheal/Due.antt =====
-- The checks that are due in a round of the loop of src/autoheal.rs. The bytes of an id are an argument.
use hifi_api_rust.Base.{
  ℕ, zero, suc, ◌+◌, ◌*◌, ◌/◌, ◌%◌, ◌^◌, Bool, true, false, not, ◌&&◌, List, [], ◌∷◌, Option, none,
  some, String, max, ltb, leb, if◌then◌else◌,
}
use hifi_api_rust.Accounts.State.{AccountState}
use hifi_api_rust.Accounts.RateLimit.{rate_limit_remaining}

abbrev pub full_check_interval_secs : ℕ
full_check_interval_secs = 60 * 60

abbrev pub full_check_initial_spread_secs : ℕ
full_check_initial_spread_secs = 5 * 60

abbrev pub full_check_repeat_spread_secs : ℕ
full_check_repeat_spread_secs = 15 * 60

abbrev pub subscription_check_interval_secs : ℕ
subscription_check_interval_secs = 24 * 60 * 60

abbrev pub subscription_initial_spread_secs : ℕ
subscription_initial_spread_secs = 10 * 60

abbrev pub subscription_repeat_spread_secs : ℕ
subscription_repeat_spread_secs = 60 * 60

abbrev pub subscription_retry_secs : ℕ
subscription_retry_secs = 60 * 60

-- The bits of `^`, of which there are `bits`.
unfoldable pub xor : ℕ → ℕ → ℕ → ℕ
xor zero a b = 0
xor (suc bits) a b = let rest = xor bits (a / 2) (b / 2) in (a + b) % 2 + 2 * rest

unfoldable pub fold_hash : ℕ → List ℕ → ℕ
unfolding xor
fold_hash hash [] = hash
fold_hash hash (byte ∷ rest) = fold_hash (xor 64 (hash * 1_099_511_628_211 % 2 ^ 64) byte) rest

abbrev pub is_unpaused : Option ℕ → Bool
is_unpaused none = true
is_unpaused (some seconds) = false

-- An account that is on, not only for the catalog, and not paused.
abbrev pub is_checked : AccountState → ℕ → Bool
is_checked a now = a.is_active && not a.is_catalog && is_unpaused (rate_limit_remaining now a)

module _ (bytes : String → List ℕ) where
  -- `account_spread_secs`
  unfoldable pub account_spread_secs : String → ℕ → ℕ
  unfolding fold_hash
  account_spread_secs account_id window_secs =
      fold_hash 14_695_981_039_346_656_037 (bytes account_id) % max window_secs 1

  -- `full_check_due`
  unfoldable pub full_check_due : AccountState → ℕ → ℕ → Bool
  unfolding account_spread_secs rate_limit_remaining
  full_check_due a now loop_started_at =
      let due_at =
        if ltb 0 a.premium_checked_at
        then a.premium_checked_at
          + full_check_interval_secs
          + account_spread_secs a.id full_check_repeat_spread_secs
        else loop_started_at + account_spread_secs a.id full_check_initial_spread_secs in
      if is_checked a now then leb due_at now else false

  -- `subscription_check_due`
  unfoldable pub subscription_check_due : AccountState → ℕ → ℕ → Bool
  unfolding account_spread_secs rate_limit_remaining
  subscription_check_due a now loop_started_at =
      let due_at =
        if ltb 0 a.subscription_error_at
        then a.subscription_error_at + subscription_retry_secs
        else (if ltb 0 a.subscription_checked_at
            then a.subscription_checked_at
              + subscription_check_interval_secs
              + account_spread_secs a.id subscription_repeat_spread_secs
            else loop_started_at + account_spread_secs a.id subscription_initial_spread_secs) in
      if is_checked a now then leb due_at now else false
