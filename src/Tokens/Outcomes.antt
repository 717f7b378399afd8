-- ===== src/Tokens/Outcomes.antt =====
-- What an outcome of the requests leaves behind, in src/token_manager.rs.
use hifi_api_rust.Base.{
  ℕ, ◌+◌, ◌-◌, ◌≤◌, ◌<◌, ◌≡◌, Bool, true, false, Option, String, arith, min, max, inl, inr, ◌≢◌, ap,
  refl,
}
use hifi_api_rust.AppError.{AppError}
use hifi_api_rust.Accounts.State.{AccountState}
use hifi_api_rust.Accounts.RateLimit.{i64_max}
use hifi_api_rust.Accounts.Pauses.{pow_pos}
use hifi_api_rust.Accounts.Switch.{set_system_disabled}
use hifi_api_rust.Accounts.OwnerOff.{on, system_off, owner_off, power}
use hifi_api_rust.Tokens.Refresh.{
  request, retry_delay, defer_retry, refresh_head, refresh_failed, is_unauthorized, is_forbidden,
  minimum_wait, switch_off,
}
use hifi_api_rust.Tokens.Served.{refresh_head-HeadEnds}

-- A failed refresh waits at least 30 seconds and at least as long as the error asks for, and no
-- longer than an hour and 15 seconds unless the error asks for more.
pub retry_delay-bounds :
    (failures jitter minimum : ℕ)
    → (max 30 minimum ≤ retry_delay failures jitter minimum)
      × (retry_delay failures jitter minimum ≤ max (3_600 + 15) minimum)
unfolding retry_delay
retry_delay-bounds failures jitter minimum = let p = pow_pos (min (failures - 1) 7) in ground arith

switch_off-keeps :
    (now : ℕ) (e : AppError) (a : AccountState)
    → let b = switch_off now e a in
      (b.heal_failures ≡ a.heal_failures) × (b.auth_failing_since ≡ a.auth_failing_since)
unfolding switch_off set_system_disabled
switch_off-keeps now e a = ground arith

pub failed-next_retry :
    (describe : AppError → String) (now jitter : ℕ) (e : AppError) (a : AccountState)
    → (refresh_failed describe now jitter e a).0.heal_next_retry
      ≡ min (now + min (retry_delay (a.heal_failures + 1) jitter (minimum_wait e)) i64_max) i64_max
unfolding refresh_failed defer_retry
failed-next_retry describe now jitter e a = rw ((switch_off-keeps now e a).0) refl

-- After a failed refresh no request for a token goes to Tidal for at least 30 seconds and for as long
-- as the error asks for, whoever asks for a token and whatever Redis holds, while the clock is far
-- from the end of the 64-bit integers.
pub refresh_failed-spaced :
    (describe : AppError → String) (now jitter later : ℕ) (e : AppError) (a : AccountState)
    (shared : Option (String × ℕ)) (previous : Option String) (force : Bool)
    → later < now + max 30 (minimum_wait e)
    → now + max 30 (minimum_wait e) < i64_max
    → (refresh_head later shared previous force (refresh_failed describe now jitter e a).0).1
      ≢ request
refresh_failed-spaced describe now jitter later e a shared previous force soon far h =
    let b = (refresh_failed describe now jitter e a).0 in
    let d = retry_delay-bounds (a.heal_failures + 1) jitter (minimum_wait e) in
    let n = failed-next_retry describe now jitter e a in
    elim (refresh_head-HeadEnds later shared previous force b) [
      | inl (u, r, c, f) ↦ cc
      | inr (inl (x, r, w)) ↦ let u = ap (λ p. p.1) r in cc
      | inr (inr (r, free, ready, rest)) ↦ ground arith
    ]

switch_off-power :
    (now : ℕ) (e : AppError) (a : AccountState)
    → let b = switch_off now e a in
      (is_unauthorized e ≡ false → power b ≡ power a)
      × (power a ≡ owner_off → power b ≡ owner_off)
      × (is_unauthorized e ≡ true → power a ≡ on → power b ≡ system_off)
unfolding switch_off set_system_disabled
switch_off-power now e a = (λ u. ground arith, λ p. ground arith, λ u p. ground arith)

-- The switch of an account after a failed refresh: only a refusal of the credentials turns an account
-- off, as one that may recover by itself, and one that its owner switched off stays so.
pub refresh_failed-power :
    (describe : AppError → String) (now jitter : ℕ) (e : AppError) (a : AccountState)
    → let b = (refresh_failed describe now jitter e a).0 in
      (is_unauthorized e ≡ false → power b ≡ power a)
      × (power a ≡ owner_off → power b ≡ owner_off)
      × (is_unauthorized e ≡ true → power a ≡ on → power b ≡ system_off)
      × (is_forbidden e ≡ false → b.auth_failing_since ≡ a.auth_failing_since)
      × (0 < a.auth_failing_since → b.auth_failing_since ≡ a.auth_failing_since)
unfolding refresh_failed defer_retry
refresh_failed-power describe now jitter e a =
    let k = (switch_off-keeps now e a).1 in
    let s = switch_off-power now e a in
    (s.0, s.1, s.2, rw k (λ f. ground arith), rw k (λ p. ground arith))
