-- ===== src/Autoheal/Windows.antt =====
-- When src/autoheal.rs says that a check of an account is due.
use hifi_api_rust.Base.{ℕ, ◌+◌, ◌≤◌, ◌<◌, ◌≡◌, true, false, List, String, arith}
use hifi_api_rust.Accounts.State.{AccountState}
use hifi_api_rust.Autoheal.Due.{
  account_spread_secs, is_checked, full_check_due, subscription_check_due,
}

module _ (bytes : String → List ℕ) where
  -- The spread stays below its window, so that accounts never drift apart by more than it.
  pub account_spread_secs-bound :
      (id : String) (window : ℕ) → 0 < window → account_spread_secs bytes id window < window
  unfolding account_spread_secs
  account_spread_secs-bound id window h = grind arith

  -- When `full_check_due` says that the playback of an account is due: never within an hour after the
  -- last check, nor for an account that is off, serves no playback or is paused; for any other account
  -- always from 75 minutes after the last check on, or from 5 minutes after the start of the loop if
  -- it has not been checked. Whether a due account is then checked is the round's decision.
  pub full_check_due-window :
      (a : AccountState) (now loop_started_at : ℕ)
      → (is_checked a now ≡ false → full_check_due bytes a now loop_started_at ≡ false)
        × (0 < a.premium_checked_at
            → now < a.premium_checked_at + 3_600
            → full_check_due bytes a now loop_started_at ≡ false)
        × (is_checked a now ≡ true
            → 0 < a.premium_checked_at
            → a.premium_checked_at + 4_500 ≤ now
            → full_check_due bytes a now loop_started_at ≡ true)
        × (is_checked a now ≡ true
            → a.premium_checked_at ≡ 0
            → loop_started_at + 300 ≤ now
            → full_check_due bytes a now loop_started_at ≡ true)
  unfolding full_check_due
  full_check_due-window a now loop_started_at =
      let repeat = account_spread_secs-bound a.id 900 (omega arith) in
      let initial = account_spread_secs-bound a.id 300 (omega arith) in
      (
        λ off. rw off (ground arith),
        λ p h. ground arith,
        λ on p h. rw on (ground arith),
        λ on p h. rw on (ground arith),
      )

  -- When `subscription_check_due` says that the subscription of an account is due. An account that is
  -- off, serves no playback or is paused is never due. After a check that failed, the account is due
  -- exactly from an hour later on, if it is on, serves playback and is not paused. Else it is not due
  -- within a day of the last check, and is due from 25 hours after it on, or from 10 minutes after the
  -- start of the loop if it has not been checked. The check that follows a refresh of the token is not
  -- part of this test.
  pub subscription_check_due-window :
      (a : AccountState) (now loop_started_at : ℕ)
      → (is_checked a now ≡ false → subscription_check_due bytes a now loop_started_at ≡ false)
        × (now < a.subscription_error_at + 3_600
            → 0 < a.subscription_error_at
            → subscription_check_due bytes a now loop_started_at ≡ false)
        × (is_checked a now ≡ true
            → 0 < a.subscription_error_at
            → a.subscription_error_at + 3_600 ≤ now
            → subscription_check_due bytes a now loop_started_at ≡ true)
        × (a.subscription_error_at ≡ 0
            → 0 < a.subscription_checked_at
            → now < a.subscription_checked_at + 86_400
            → subscription_check_due bytes a now loop_started_at ≡ false)
        × (is_checked a now ≡ true
            → a.subscription_error_at ≡ 0
            → 0 < a.subscription_checked_at
            → a.subscription_checked_at + 90_000 ≤ now
            → subscription_check_due bytes a now loop_started_at ≡ true)
        × (is_checked a now ≡ true
            → a.subscription_error_at ≡ 0
            → a.subscription_checked_at ≡ 0
            → loop_started_at + 600 ≤ now
            → subscription_check_due bytes a now loop_started_at ≡ true)
  unfolding subscription_check_due
  subscription_check_due-window a now loop_started_at =
      let repeat = account_spread_secs-bound a.id 3_600 (omega arith) in
      let initial = account_spread_secs-bound a.id 600 (omega arith) in
      (
        λ off. rw off (ground arith),
        λ h p. ground arith,
        λ on p h. rw on (ground arith),
        λ e p h. ground arith,
        λ on e p h. rw on (ground arith),
        λ on e p h. rw on (ground arith),
      )
