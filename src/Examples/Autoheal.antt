-- ===== src/Examples/Autoheal.antt =====
-- src/autoheal.rs at concrete inputs.
use hifi_api_rust.Base.{ℕ, ◌+◌, ◌<◌, ◌≤◌, ◌≡◌, refl, ◌⊎◌, Bool, true, false, none, some}
use hifi_api_rust.Base.Bytes.{codes}
use hifi_api_rust.Accounts.State.{AccountState, new_account}
use hifi_api_rust.Accounts.RateLimit.{rate_limit_remaining}
use hifi_api_rust.Accounts.OwnerOff.{power, system_off, owner_off}
use hifi_api_rust.Accounts.Switch.{disable_after_auth_failures}
use hifi_api_rust.Autoheal.Due.{is_checked, full_check_due, subscription_check_due}
use hifi_api_rust.Autoheal.Windows.{full_check_due-window, subscription_check_due-window}
use hifi_api_rust.Autoheal.Round.{
  left_alone, switched_off, checks, begin_round, due_checks, begin_round-cases,
}

abbrev account : AccountState
account = record (new_account (λ s. s) "a" "account" "client" "secret" "refresh" none true "") {
  premium_checked_at = 1_000;
  subscription_checked_at = 500;
}

full_check_due-window_example :
    (is_checked account 6_000 ≡ false → full_check_due codes account 6_000 100 ≡ false)
    × (0 < account.premium_checked_at
        → 6_000 < account.premium_checked_at + 3_600
        → full_check_due codes account 6_000 100 ≡ false)
    × (is_checked account 6_000 ≡ true
        → 0 < account.premium_checked_at
        → account.premium_checked_at + 4_500 ≤ 6_000
        → full_check_due codes account 6_000 100 ≡ true)
    × (is_checked account 6_000 ≡ true
        → account.premium_checked_at ≡ 0
        → 100 + 300 ≤ 6_000
        → full_check_due codes account 6_000 100 ≡ true)
full_check_due-window_example = full_check_due-window codes account 6_000 100

subscription_check_due-window_example :
    (is_checked account 6_000 ≡ false → subscription_check_due codes account 6_000 100 ≡ false)
    × (6_000 < account.subscription_error_at + 3_600
        → 0 < account.subscription_error_at
        → subscription_check_due codes account 6_000 100 ≡ false)
    × (is_checked account 6_000 ≡ true
        → 0 < account.subscription_error_at
        → account.subscription_error_at + 3_600 ≤ 6_000
        → subscription_check_due codes account 6_000 100 ≡ true)
    × (account.subscription_error_at ≡ 0
        → 0 < account.subscription_checked_at
        → 6_000 < account.subscription_checked_at + 86_400
        → subscription_check_due codes account 6_000 100 ≡ false)
    × (is_checked account 6_000 ≡ true
        → account.subscription_error_at ≡ 0
        → 0 < account.subscription_checked_at
        → account.subscription_checked_at + 90_000 ≤ 6_000
        → subscription_check_due codes account 6_000 100 ≡ true)
    × (is_checked account 6_000 ≡ true
        → account.subscription_error_at ≡ 0
        → account.subscription_checked_at ≡ 0
        → 100 + 600 ≤ 6_000
        → subscription_check_due codes account 6_000 100 ≡ true)
subscription_check_due-window_example = subscription_check_due-window codes account 6_000 100

abbrev off : AccountState
off = record account { is_active = false; auto_disabled = true }

recovers : (begin_round codes 2 100 6_000 off).1 ≡ checks true false false
unfolding begin_round due_checks disable_after_auth_failures rate_limit_remaining full_check_due
    subscription_check_due new_account
recovers = refl

begin_round-cases_example :
    (power off ≡ owner_off → begin_round codes 2 100 6_000 off ≡ (off, left_alone))
    × (6_000 < off.heal_next_retry
        → ((begin_round codes 2 100 6_000 off).1 ≡ left_alone)
          ⊎ (((begin_round codes 2 100 6_000 off).1 ≡ switched_off)
              × (power (begin_round codes 2 100 6_000 off).0 ≡ owner_off)))
    × ((seconds : ℕ)
        → rate_limit_remaining 6_000 off ≡ some seconds
        → ((begin_round codes 2 100 6_000 off).1 ≡ left_alone)
          ⊎ (((begin_round codes 2 100 6_000 off).1 ≡ switched_off)
              × (power (begin_round codes 2 100 6_000 off).0 ≡ owner_off)))
    × (power off ≡ system_off
        → off.heal_next_retry ≤ 6_000
        → rate_limit_remaining 6_000 off ≡ none
        → (((begin_round codes 2 100 6_000 off).1 ≡ switched_off)
            × (power (begin_round codes 2 100 6_000 off).0 ≡ owner_off))
          ⊎ ((full : Bool) × (subscription : Bool) × ((begin_round codes 2 100 6_000 off).1
                ≡ checks true full subscription)))
begin_round-cases_example = begin_round-cases codes 2 100 6_000 off
