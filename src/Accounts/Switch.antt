-- ===== src/Accounts/Switch.antt =====
-- Who switches an account on and off in src/account_manager.rs: the owner, and the background tasks.
use hifi_api_rust.Base.{ℕ, ◌-◌, Bool, true, false, not, ◌&&◌, ◌||◌, max, ltb, ◌==◌, if◌then◌else◌}
use hifi_api_rust.Accounts.State.{AccountState}

-- `set_account_active`: the owner's switch.
unfoldable pub set_account_active : ℕ → Bool → AccountState → AccountState
set_account_active now active a = record a {
  is_active = active;
  auto_disabled = false;
  heal_failures = 0;
  heal_next_retry = 0;
  auth_forbidden_streak = 0;
  auth_failing_since = 0;
  disabled_at = if active then 0 else (if a.is_active then now else a.disabled_at);
  updated_at = now;
}

-- `set_auto_disabled`
unfoldable pub set_auto_disabled : ℕ → Bool → AccountState → AccountState
set_auto_disabled now disabled a =
    let fresh = not disabled || not a.auto_disabled in
    record a {
      auto_disabled = disabled;
      heal_failures = if fresh then 0 else a.heal_failures;
      heal_next_retry = if fresh then 0 else a.heal_next_retry;
      auth_forbidden_streak = if fresh then 0 else a.auth_forbidden_streak;
      updated_at = now;
    }

-- `set_system_disabled` on an account that is still in the list.
unfoldable pub set_system_disabled : ℕ → Bool → AccountState → AccountState × Bool
set_system_disabled now disabled a =
    if (if disabled then not a.is_active && not a.auto_disabled else not a.auto_disabled)
    then (a, false)
    else (let at = if disabled then max a.disabled_at 1 else 0 in
        (
          record a {
            auto_disabled = disabled;
            is_active = not disabled;
            disabled_at = if at == 1 then now else at;
            updated_at = now;
          },
          true,
        ))

-- `disable_after_auth_failures` on an account that is still in the list. A limit or a time of 0
-- turns it off.
unfoldable pub disable_after_auth_failures : ℕ → ℕ → AccountState → AccountState × Bool
disable_after_auth_failures max_secs now a =
    if max_secs == 0
      || a.auth_failing_since == 0
      || ltb (now - a.auth_failing_since) max_secs
      || not (a.is_active || a.auto_disabled)
    then (a, false)
    else (
      record a {
        is_active = false;
        auto_disabled = false;
        disabled_at = if a.disabled_at == 0 then now else a.disabled_at;
        updated_at = now;
      },
      true,
    )
