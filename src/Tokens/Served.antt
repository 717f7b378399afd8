-- ===== src/Tokens/Served.antt =====
-- Which tokens src/token_manager.rs hands out.
use text.Mathlib.Text.{◌==◌ as str_eq}
use hifi_api_rust.Base.{
  ℕ, ◌+◌, ◌≤◌, ◌<◌, ◌≡◌, refl, ◌⊎◌, inl, inr, Bool, true, false, Option, none, some, String, arith,
  Bool-cases, Option-cases, ltb, leb, ◌||◌, ◌-◌, subst, sym,
}
use hifi_api_rust.AppError.{AppError, rate_limited, service_unavailable_retry}
use hifi_api_rust.Accounts.State.{AccountState, is_rejected}
use hifi_api_rust.Accounts.RateLimit.{rate_limit_remaining}
use hifi_api_rust.Tokens.Cached.{cached_token, shared_token}
use hifi_api_rust.Tokens.Refresh.{
  Refresh, token, fails, request, serves, try_shared, check_wait, refresh_head,
}

-- The account's token after the head of a refresh, where it is handed out.
abbrev pub Serves : ℕ → Option String → Bool → AccountState × Refresh → Type 0
Serves now previous force r =
    (t : String) × (r.1 ≡ token t)
    × (cached_token now r.0 ≡ some t)
    × (force ≡ true → is_rejected previous t ≡ false)

-- A pause or a cooldown ends it.
abbrev pub Waits : ℕ → AccountState → AccountState × Refresh → Type 0
Waits now a r =
    (e : AppError) × (r ≡ (a, fails e))
    × (((seconds : ℕ) × (rate_limit_remaining now a ≡ some seconds) × (e ≡ rate_limited seconds))
        ⊎ (now < a.heal_next_retry))

-- The account's own token does not serve.
abbrev pub NeedsToken : ℕ → Option String → Bool → AccountState → Type 0
NeedsToken now previous force a =
    (t : String) → cached_token now a ≡ some t → (force ≡ true) × (is_rejected previous t ≡ true)

-- Tidal has to be asked.
abbrev pub Asks : ℕ → Option String → Bool → AccountState → AccountState × Refresh → Type 0
Asks now previous force a r =
    (r ≡ (a, request))
    × (rate_limit_remaining now a ≡ none)
    × (a.heal_next_retry ≤ now)
    × NeedsToken now previous force a

abbrev pub HeadEnds : ℕ → Option String → Bool → AccountState → AccountState × Refresh → Type 0
HeadEnds now previous force a r =
    Serves now previous force r ⊎ (Waits now a r ⊎ Asks now previous force a r)

-- The test of `shared_token`, with the token that the caller had if a new one is forced.
abbrev unusable : ℕ → Option String → AccountState → String → ℕ → Bool
unusable now previous a s expires =
    str_eq s ""
    || leb expires (now + 60)
    || is_rejected previous s
    || is_rejected a.rejected_access_token s

shared-cases :
    (now : ℕ) (s : String) (expires : ℕ) (previous : Option String) (a : AccountState)
    → let r = shared_token now (some (s, expires)) previous a in
      (r ≡ (a, none))
      ⊎ ((r.1 ≡ some s) × (cached_token now r.0 ≡ some s) × (is_rejected previous s ≡ false))
unfolding shared_token cached_token
shared-cases now s expires previous a = elim (Bool-cases (unusable now previous a s expires)) [
  | inl e ↦ inl (rw e refl)
  | inr e ↦ inr (rw e (refl, ground arith, ground arith))
]

try_none :
    (now : ℕ) (previous : Option String) (force : Bool) (a : AccountState)
    → try_shared now none previous force a ≡ (a, request)
unfolding try_shared shared_token
try_none now previous force a = refl

try_shared-HeadEnds :
    (now : ℕ) (shared : Option (String × ℕ)) (previous : Option String) (force : Bool)
    (a : AccountState)
    → rate_limit_remaining now a ≡ none
    → a.heal_next_retry ≤ now
    → NeedsToken now previous force a
    → HeadEnds now previous force a (try_shared now shared previous force a)
unfolding try_shared
try_shared-HeadEnds now none previous force a free ready needs =
    inr (inr (try_none now previous force a, free, ready, needs))
try_shared-HeadEnds now (some (s, expires)) previous false a free ready needs =
    elim (shared-cases now s expires none a) [
      | inl e ↦ inr (inr (rw (try_shared, e) refl, free, ready, needs))
      | inr (e, c, o) ↦ inl (s, rw (try_shared, e) refl, c, λ f. cc)
    ]
try_shared-HeadEnds now (some (s, expires)) previous true a free ready needs =
    elim (shared-cases now s expires previous a) [
      | inl e ↦ inr (inr (rw (try_shared, e) refl, free, ready, needs))
      | inr (e, c, o) ↦ inl (s, rw (try_shared, e) refl, c, λ f. o)
    ]

check_wait-HeadEnds :
    (now : ℕ) (shared : Option (String × ℕ)) (previous : Option String) (force : Bool)
    (a : AccountState)
    → NeedsToken now previous force a
    → HeadEnds now previous force a (check_wait now shared previous force a)
unfolding check_wait
check_wait-HeadEnds now shared previous force a needs =
    elim (Option-cases (rate_limit_remaining now a)) [
      | inr (seconds, e) ↦
          inr (inl (rate_limited seconds, rw (check_wait, e) refl, inl (seconds, e, refl)))
      | inl free ↦ elim (Bool-cases (ltb now a.heal_next_retry)) [
        | inl e ↦ inr (
            inl (
              service_unavailable_retry "Token refresh is cooling down" (a.heal_next_retry - now),
              rw (check_wait, free, e) refl,
              inr (ground arith),
            ))
        | inr e ↦
            let ready : a.heal_next_retry ≤ now = ground arith in
            let wait : check_wait now shared previous force a
                ≡ try_shared now shared previous force a =
              rw (check_wait, free, e) refl in
            subst (λ r. HeadEnds now previous force a r) (sym wait)
              (try_shared-HeadEnds now shared previous force a free ready needs)
      ]
    ]

-- Whatever Redis holds and whoever asks, the head of a refresh ends in one of three ways. It hands out
-- the account's token, which is not empty, not expired, not one that Tidal rejected and, if a new one
-- is forced, not the one that the caller had. Or it fails, because the account is paused or its
-- refreshes cool down. Or Tidal has to be asked, which happens only to an account that is neither
-- paused nor cooling down and whose own token does not serve.
pub refresh_head-HeadEnds :
    (now : ℕ) (shared : Option (String × ℕ)) (previous : Option String) (force : Bool)
    (a : AccountState)
    → HeadEnds now previous force a (refresh_head now shared previous force a)
unfolding refresh_head
refresh_head-HeadEnds now shared previous force a = elim (Option-cases (cached_token now a)) [
  | inl e ↦
      let head : refresh_head now shared previous force a ≡ check_wait now shared previous force a =
        rw (refresh_head, e) refl in
      subst (λ r. HeadEnds now previous force a r) (sym head)
        (check_wait-HeadEnds now shared previous force a (λ t h. cc))
  | inr (t, e) ↦ elim (Bool-cases (serves force previous t)) [
    | inl s ↦ inl (t, rw (refresh_head, e, s) refl, rw (refresh_head, e, s) e, ground arith)
    | inr s ↦
        let head : refresh_head now shared previous force a
            ≡ check_wait now shared previous force a =
          rw (refresh_head, e, s) refl in
        subst (λ r. HeadEnds now previous force a r) (sym head)
          (check_wait-HeadEnds now shared previous force a
            (λ u h. let same : u ≡ t = cc in (ground arith, rw same (ground arith))))
  ]
]
