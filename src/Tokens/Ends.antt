-- ===== src/Tokens/Ends.antt =====
-- How a refresh of src/token_manager.rs ends, whatever Tidal and Redis answer.
use hifi_api_rust.Base.{
  ℕ, ◌+◌, ◌≤◌, ◌<◌, ◌≡◌, refl, ◌⊎◌, inl, inr, Bool, true, false, Option, none, some, String, arith,
  min, ◌==◌, if◌then◌else◌, Option-cases, subst, sym, ap,
}
use hifi_api_rust.AppError.{AppError, rate_limited, timeout}
use hifi_api_rust.Accounts.State.{AccountState, is_rejected}
use hifi_api_rust.Accounts.RateLimit.{rate_limit_remaining, i64_max}
use hifi_api_rust.Tokens.Cached.{cached_token}
use hifi_api_rust.Tokens.Refresh.{refreshed, refresh_failed, minimum_wait}
use hifi_api_rust.Tokens.Cycle.{Exchange, Proxies, request_cycle}
use hifi_api_rust.Tokens.Served.{NeedsToken, refresh_head-HeadEnds}
use hifi_api_rust.Tokens.Outcomes.{failed-next_retry, retry_delay-bounds}
use hifi_api_rust.Tokens.Attempts.{Grants, Holds, Brings, sum-cases, request_cycle-Brings}
use hifi_api_rust.Tokens.Entry.{Visit, timed_cycle, conclude, after_head, refresh}

-- An answer of the cycle granted the token; the account holds it, and nothing delays its next refresh.
abbrev pub Granted : (ℕ → Bool → Exchange) → AccountState → String → AccountState → Type 0
Granted tidal a t c =
    ((n : ℕ) × (form : Bool) × (n < (if a.heal_failures == 0 then 4 else 1))
      × Grants (tidal n form) t
      × Holds (tidal n form).now t c)
    × (c.heal_failures ≡ 0)
    × (c.heal_next_retry ≡ 0)
    × (c.auth_failing_since ≡ 0)

-- Tidal was asked; the next refresh is half a minute away at least, if it failed.
abbrev pub Asked :
    (ℕ → Bool → Exchange) → ℕ → AccountState → AccountState × (AppError ⊎ String) → Type 0
Asked tidal ended a r =
    ((t : String) × (r.1 ≡ inr t) × Granted tidal a t r.0)
    ⊎ ((e : AppError) × (r.1 ≡ inl e) × (min (ended + 30) i64_max ≤ r.0.heal_next_retry))

abbrev pub Ends :
    (ℕ → Bool → Exchange)
    → Visit
    → Option String
    → Bool
    → AccountState
    → AccountState × (AppError ⊎ String)
    → Type 0
Ends tidal v previous force a r =
    ((t : String) × (r.1 ≡ inr t)
      × (cached_token v.now r.0 ≡ some t)
      × (force ≡ true → is_rejected previous t ≡ false))
    ⊎ (((e : AppError) × (r ≡ (a, inl e))
          × (((seconds : ℕ) × (rate_limit_remaining v.now a ≡ some seconds)
                × (e ≡ rate_limited seconds))
              ⊎ (v.now < a.heal_next_retry)))
        ⊎ (((rate_limit_remaining v.now a ≡ none)
              × (a.heal_next_retry ≤ v.now)
              × NeedsToken v.now previous force a)
            × Asked tidal v.ended a r))

module _ (parse : String → Option ℕ) (clean : String → Option String)
    (describe : ℕ → String → String → String) (denied : ℕ → String → String)
    (show : AppError → String) (p : Proxies) (tidal : ℕ → Bool → Exchange) (v : Visit)
    (far : (n : ℕ) (form : Bool) → (tidal n form).now + 60 < i64_max) where
  failed-Asked :
      (e : AppError) (a b : AccountState)
      → Asked tidal v.ended a ((refresh_failed show v.ended v.jitter e b).0, inl e)
  failed-Asked e a b =
      let next = failed-next_retry show v.ended v.jitter e b in
      let bounds = retry_delay-bounds (b.heal_failures + 1) v.jitter (minimum_wait e) in
      inr (e, refl, omega (arith, next, bounds.0))

  refreshed-Granted :
      (a b : AccountState) (t : String)
      → Brings tidal (if a.heal_failures == 0 then 4 else 1) t b
      → Granted tidal a t (refreshed b)
  unfolding refreshed
  refreshed-Granted a b t h = ((h.0, b.auth_use_basic, h.1, h.2, h.3), refl, refl, refl)

  conclude-Asked :
      (a : AccountState)
      → Asked tidal v.ended a (
          conclude parse clean describe denied show p tidal v
            (request_cycle parse clean describe denied p tidal a))
  unfolding conclude
  conclude-Asked a =
      let q = request_cycle parse clean describe denied p tidal a in
      elim (sum-cases q.1) [
        | inl (e, k) ↦ rw (conclude, k) (failed-Asked e a q.0)
        | inr (t, k) ↦
            let brought = request_cycle-Brings parse clean describe denied p tidal a t far k in
            rw (conclude, k) (inl (t, refl, refreshed-Granted a q.0 t brought))
      ]

  asked :
      (a : AccountState)
      → Asked tidal v.ended a (
          conclude parse clean describe denied show p tidal v
            (timed_cycle parse clean describe denied show p tidal v a))
  unfolding timed_cycle conclude
  asked a = elim (Option-cases v.cut) [
    | inl e ↦ rw (timed_cycle, e) (conclude-Asked a)
    | inr (b, e) ↦ rw (timed_cycle, e) (failed-Asked timeout a b)
  ]

  -- A refresh ends in one of four ways, whatever Redis and Tidal answer and whoever asks. It hands out
  -- the account's token or the shared one, which is then the account's, is not expired or rejected
  -- and, if a new one is forced, is not the one that the caller had. Or the account is paused or cools
  -- down, and is left as it is. Otherwise Tidal is asked, which happens only to an account that is
  -- neither and whose token does not serve: then the refresh hands out the access token of a success
  -- answer of Tidal, which the account holds from then on, with no wait left; or it fails, and the
  -- account waits half a minute at least. The clock is more than a minute from the end of the 64-bit
  -- integers.
  pub refresh-Ends :
      (previous : Option String) (force : Bool) (a : AccountState)
      → Ends tidal v previous force a
          (refresh parse clean describe denied show p tidal v previous force a)
  unfolding refresh after_head
  refresh-Ends previous force a = elim (refresh_head-HeadEnds v.now v.shared previous force a) [
    | inl (t, e, c, fresh) ↦ rw (refresh, after_head, e) (inl (t, refl, c, fresh))
    | inr (inl (e, r, w)) ↦
        let run : refresh parse clean describe denied show p tidal v previous force a ≡ (a, inl e) =
          ap (after_head parse clean describe denied show p tidal v) r in
        subst (Ends tidal v previous force a) (sym run) (inr (inl (e, refl, w)))
    | inr (inr (r, free, ready, needs)) ↦
        let run = ap (after_head parse clean describe denied show p tidal v) r in
        subst (Ends tidal v previous force a) (sym run) (inr (inr ((free, ready, needs), asked a)))
  ]
