-- ===== src/Accounts/OwnerOff.antt =====
-- An account that its owner has switched off stays off until the owner switches it on.
use hifi_api_rust.Base.{
  ℕ, ◌≡◌, refl, Bool, true, false, List, [], ◌∷◌, Option, arith, String, ◌≢◌, ◌⊎◌, if◌then◌else◌,
}
use hifi_api_rust.Accounts.State.{AccountState}
use hifi_api_rust.Accounts.RateLimit.{pause_account}
use hifi_api_rust.Accounts.Switch.{
  set_account_active, set_system_disabled, disable_after_auth_failures,
}

-- What the background tasks do to the switch of an account.
pub data Background : Type 0 where
  system : (now : ℕ) (disabled : Bool) → Background
  auth_failures : (max_secs now : ℕ) → Background
  throttled : (now : ℕ) (retry_after : Option String) → Background

-- The state of the switch; the two flags of the source leave a fourth combination that nothing makes.
pub data Power : Type 0 where
  on system_off owner_off both : Power

abbrev pub power_of : Bool → Bool → Power
power_of true false = on
power_of true true = both
power_of false true = system_off
power_of false false = owner_off

abbrev pub power : AccountState → Power
power a = power_of a.is_active a.auto_disabled

module _ (parse : String → Option ℕ) where
  unfoldable pub background : AccountState → Background → AccountState
  background a (system now disabled) = (set_system_disabled now disabled a).0
  background a (auth_failures max_secs now) = (disable_after_auth_failures max_secs now a).0
  background a (throttled now retry_after) = (pause_account parse now retry_after a).0

  unfoldable pub run : List Background → AccountState → AccountState
  run [] a = a
  run (b ∷ bs) a = run bs (background a b)

  background-owner_off :
      (a : AccountState) (b : Background) → power a ≡ owner_off → power (background a b) ≡ owner_off
  unfolding background set_system_disabled disable_after_auth_failures pause_account
  background-owner_off a (system now disabled) h = ground arith
  background-owner_off a (auth_failures max_secs now) h = ground arith
  background-owner_off a (throttled now retry_after) h = ground arith

  -- No sequence of recoveries, automatic switch-offs and 429 pauses turns an account on, or makes it
  -- eligible for automatic recovery, after its owner has switched it off.
  pub run-owner_off :
      (bs : List Background) (now : ℕ) (a : AccountState)
      → power (run bs (set_account_active now false a)) ≡ owner_off
  unfolding set_account_active run
  run-owner_off bs now a = from bs (set_account_active now false a) refl
    where
      from :
          (cs : List Background) (b : AccountState)
          → power b ≡ owner_off
          → power (run cs b) ≡ owner_off
      from [] b h = h
      from (c ∷ cs) b h = from cs (background b c) (background-owner_off b c h)

-- The automatic switch reports exactly whether it acted: it switches off any account but one that its
-- owner has switched off, it switches on only what the system has switched off, and otherwise it
-- leaves the account as it was.
pub set_system_disabled-power :
    (now : ℕ) (disabled : Bool) (a : AccountState)
    → (((set_system_disabled now disabled a).1 ≡ true)
        × (power (set_system_disabled now disabled a).0 ≡ (if disabled then system_off else on))
        × (power a ≢ owner_off)
        × (disabled ≡ false → a.auto_disabled ≡ true))
      ⊎ (set_system_disabled now disabled a ≡ (a, false))
        × ((power a ≡ owner_off) ⊎ (a.auto_disabled ≡ false))
unfolding set_system_disabled
set_system_disabled-power now true a = ground arith
set_system_disabled-power now false a = ground arith
