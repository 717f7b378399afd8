-- ===== src/Autoheal/Round.antt =====
-- What a round of the loop of src/autoheal.rs decides for one account, before it does it.
use hifi_api_rust.Base.{
  ℕ, ◌*◌, ◌≤◌, ◌<◌, ◌≡◌, ◌⊎◌, inl, inr, Bool, true, false, not, ◌&&◌, ◌||◌, List, none, some,
  String, ltb, arith, Bool-cases,
}
use hifi_api_rust.Accounts.State.{AccountState}
use hifi_api_rust.Accounts.RateLimit.{rate_limit_remaining}
use hifi_api_rust.Accounts.Switch.{disable_after_auth_failures}
use hifi_api_rust.Accounts.OwnerOff.{power, system_off, owner_off}
use hifi_api_rust.Tokens.Cached.{needs_renewal}
use hifi_api_rust.Autoheal.Due.{full_check_due, subscription_check_due, is_unpaused}

pub data Round : Type 0 where
  -- The account is left alone.
  left_alone : Round
  switched_off : Round
  checks : (refresh_due check_full check_subscription : Bool) → Round

module _ (bytes : String → List ℕ) where
  -- The three tests, of which at least one must hold.
  unfoldable pub due_checks : ℕ → ℕ → AccountState → Round
  unfolding rate_limit_remaining needs_renewal full_check_due subscription_check_due
  due_checks loop_started_at now a =
      let ready = not (ltb now a.heal_next_retry) && is_unpaused (rate_limit_remaining now a) in
      let refresh_due = ready && (a.auto_disabled || a.is_active && needs_renewal now a) in
      let check_full = ready && full_check_due bytes a now loop_started_at in
      let check_subscription = ready && subscription_check_due bytes a now loop_started_at in
      elim (refresh_due || check_full || check_subscription) [
        | true ↦ checks refresh_due check_full check_subscription
        | false ↦ left_alone
      ]

  -- The head of a round; the switch-off after failed refreshes does not fail.
  unfoldable pub begin_round : ℕ → ℕ → ℕ → AccountState → AccountState × Round
  unfolding disable_after_auth_failures due_checks
  begin_round hours loop_started_at now a = elim (a.is_active || a.auto_disabled) [
    | false ↦ (a, left_alone)
    | true ↦
        let (b, off) = disable_after_auth_failures (hours * 3_600) now a in
        elim off [ true ↦ (b, switched_off) | false ↦ (b, due_checks loop_started_at now b) ]
  ]

  due_checks-waits :
      (loop_started_at now : ℕ) (a : AccountState)
      → now < a.heal_next_retry
      → due_checks loop_started_at now a ≡ left_alone
  unfolding due_checks
  due_checks-waits loop_started_at now a h = ground arith

  due_checks-paused :
      (loop_started_at now : ℕ) (a : AccountState) (seconds : ℕ)
      → rate_limit_remaining now a ≡ some seconds
      → due_checks loop_started_at now a ≡ left_alone
  unfolding due_checks
  due_checks-paused loop_started_at now a seconds h = ground arith

  due_checks-refreshes :
      (loop_started_at now : ℕ) (a : AccountState)
      → a.auto_disabled ≡ true
      → a.heal_next_retry ≤ now
      → rate_limit_remaining now a ≡ none
      → (full : Bool) × (subscription : Bool) × (due_checks loop_started_at now a
          ≡ checks true full subscription)
  unfolding due_checks
  due_checks-refreshes loop_started_at now a d h f = (
    full_check_due bytes a now loop_started_at,
    subscription_check_due bytes a now loop_started_at,
    ground arith,
  )

  ends_quietly :
      (hours loop_started_at now : ℕ) (a : AccountState)
      → due_checks loop_started_at now a ≡ left_alone
      → let r = begin_round hours loop_started_at now a in
        (r.1 ≡ left_alone) ⊎ ((r.1 ≡ switched_off) × (power r.0 ≡ owner_off))
  unfolding begin_round disable_after_auth_failures
  ends_quietly hours loop_started_at now a h = ground arith

  refreshes :
      (hours loop_started_at now : ℕ) (a : AccountState)
      → power a ≡ system_off
      → (full : Bool) × (subscription : Bool) × (due_checks loop_started_at now a
          ≡ checks true full subscription)
      → let r = begin_round hours loop_started_at now a in
        ((r.1 ≡ switched_off) × (power r.0 ≡ owner_off))
        ⊎ ((full : Bool) × (subscription : Bool) × (r.1 ≡ checks true full subscription))
  unfolding begin_round disable_after_auth_failures
  refreshes hours loop_started_at now a p (full, subscription, e) =
      elim (Bool-cases (disable_after_auth_failures (hours * 3_600) now a).1) [
        | inl off ↦ inl (ground arith, ground arith)
        | inr stays ↦ inr (full, subscription, ground arith)
      ]

  -- A round leaves an account alone that its owner switched off. An account that is paused or whose
  -- refreshes cool down is left alone as well, or switched off for good. An account that the system
  -- switched off is refreshed, or switched off for good, in every round that finds it neither paused
  -- nor cooling down.
  pub begin_round-cases :
      (hours loop_started_at now : ℕ) (a : AccountState)
      → let r = begin_round hours loop_started_at now a in
        (power a ≡ owner_off → r ≡ (a, left_alone))
        × (now < a.heal_next_retry
            → (r.1 ≡ left_alone) ⊎ ((r.1 ≡ switched_off) × (power r.0 ≡ owner_off)))
        × ((seconds : ℕ)
            → rate_limit_remaining now a ≡ some seconds
            → (r.1 ≡ left_alone) ⊎ ((r.1 ≡ switched_off) × (power r.0 ≡ owner_off)))
        × (power a ≡ system_off
            → a.heal_next_retry ≤ now
            → rate_limit_remaining now a ≡ none
            → ((r.1 ≡ switched_off) × (power r.0 ≡ owner_off))
              ⊎ ((full : Bool) × (subscription : Bool) × (r.1 ≡ checks true full subscription)))
  unfolding begin_round
  begin_round-cases hours loop_started_at now a =
      let quiet = ends_quietly hours loop_started_at now a in
      (
        λ p. ground arith,
        λ h. quiet (due_checks-waits loop_started_at now a h),
        λ s h. quiet (due_checks-paused loop_started_at now a s h),
        λ p h f.
            refreshes hours loop_started_at now a p
              (due_checks-refreshes loop_started_at now a (ground arith) h f),
      )
