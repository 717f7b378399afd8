-- ===== src/Examples/Pool.antt =====
-- src/account_manager.rs at concrete inputs.
use hifi_api_rust.Base.{
  ℕ, ◌≡◌, refl, ◌⊎◌, ◌≢◌, inl, inr, Bool, true, false, List, [], ◌∷◌, Option, none, some, String,
  arith, Has,
}
use hifi_api_rust.AppError.{AppError}
use hifi_api_rust.Accounts.State.{AccountState, new_account}
use hifi_api_rust.Accounts.RateLimit.{retry_after_secs, pause_account}
use hifi_api_rust.Accounts.Switch.{set_account_active}
use hifi_api_rust.Accounts.OwnerOff.{
  power, owner_off, Background, system, auth_failures, throttled, run, run-owner_off,
}
use hifi_api_rust.Accounts.Lease.{playback, metadata, LeaseRules}
use hifi_api_rust.Accounts.Select.{
  AccountManager, choose, granted, busy, failed, enumerate, is_usable,
}
use hifi_api_rust.Accounts.Best.{choose-cases, IsBest, IsCandidate}
use hifi_api_rust.Accounts.Held.{Pool, LeaseEvent, take, claim, drop, lease_run, IsCounted}
use hifi_api_rust.Accounts.Bound.{lease_run-Counts}
use hifi_api_rust.Accounts.Pauses.{pause_account-chosen}
use hifi_api_rust.Accounts.Checks.{confirm_full}
use hifi_api_rust.Accounts.Previews.{previews}

abbrev plain : String → String
plain s = s

abbrev no_code : String → Option String
no_code s = none

abbrev ninety : String → Option ℕ
ninety s = some 90

abbrev no_penalty : ℕ → List (ℕ × Bool) → ℕ
no_penalty now_ms recent = 0

abbrev account : String → AccountState
account id = new_account plain id "account" "client" "secret" "refresh" none true ""

abbrev pool : AccountManager
pool = record { accounts = account "a" ∷ account "b" ∷ []; rr_seq = 1; catalog_rr = 0 }

abbrev rules : LeaseRules
rules = record { concurrency = 1; rest_ms = 0; per_hour = 0 }

abbrev history : List Background
history = throttled 5 none ∷ system 6 true ∷ system 7 false ∷ auth_failures 60 8 ∷ []

run-owner_off_example :
    power (run ninety history (set_account_active 3 false (account "a"))) ≡ owner_off
run-owner_off_example = run-owner_off ninety history 3 (account "a")

abbrev throttled_pool : List AccountState
throttled_pool = (pause_account ninety 100 (some "90") (account "a")).0 ∷ account "b" ∷ []

ninety_secs : retry_after_secs ninety (some "90") ≡ 90
unfolding retry_after_secs
ninety_secs = refl

pause_account-chosen_example :
    choose no_penalty 150 150_000 [] playback rules 1 throttled_pool ≢ granted 0
unfolding enumerate
pause_account-chosen_example =
    pause_account-chosen no_penalty ninety 100 150 150_000 (some "90") (account "a") [] playback
      rules 1 0 throttled_pool (omega (arith, ninety_secs)) (inr (omega (arith, ninety_secs)))
      (inl refl)

choose-cases_example :
    ((c : ℕ × AccountState) × (choose no_penalty 10 10_000 [] playback rules 1 pool.accounts
        ≡ granted c.0)
      × IsBest no_penalty 10 10_000 [] playback rules pool.accounts c)
    ⊎ ((c : ℕ × AccountState) → ¬ IsCandidate 10 10_000 [] rules pool.accounts c)
      × (((u : ℕ × AccountState) × Has u (enumerate 0 pool.accounts)
            × (is_usable 10 [] u.1 ≡ true)
            × (choose no_penalty 10 10_000 [] playback rules 1 pool.accounts ≡ busy))
          ⊎ ((u : ℕ × AccountState)
              → Has u (enumerate 0 pool.accounts)
              → ¬ (is_usable 10 [] u.1 ≡ true))
            × ((e : AppError) × (choose no_penalty 10 10_000 [] playback rules 1 pool.accounts
                  ≡ failed e)))
choose-cases_example = choose-cases no_penalty 10 10_000 [] playback rules 1 pool.accounts

abbrev requests : List LeaseEvent
requests =
    take 10 10_000 [] playback rules
    ∷ take 10 10_001 [] playback rules
    ∷ claim 0 10_500
    ∷ take 11 11_000 [] metadata rules
    ∷ drop 1 12_000
    ∷ take 12 12_500 ("a" ∷ []) playback rules
    ∷ []

abbrev idle : Pool
idle = record { manager = pool; held = [] }

idle-IsCounted : IsCounted 1 idle
unfolding new_account
idle-IsCounted = ((refl, refl, omega arith), ((refl, refl, omega arith), tt))

lease_run-Counts_example : IsCounted 1 (lease_run no_penalty requests idle)
lease_run-Counts_example = lease_run-Counts no_penalty 1 requests idle idle-IsCounted

abbrev nine : List ℕ
nine = 1 ∷ 2 ∷ 3 ∷ 4 ∷ 5 ∷ 6 ∷ 7 ∷ 8 ∷ 9 ∷ []

abbrev shown : AccountState
shown = previews nine (confirm_full 0 (account "a"))
