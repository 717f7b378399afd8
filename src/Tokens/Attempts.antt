-- ===== src/Tokens/Attempts.antt =====
-- What a cycle of token requests in src/token_manager.rs leaves in the account.
use text.Mathlib.Text.{◌==◌ as str_eq}
use hifi_api_rust.Base.{
  ℕ, zero, suc, ◌+◌, ◌<◌, ◌≡◌, ◌⊎◌, refl, ap, ◌∙◌, subst, inl, inr, Bool, true, false, Option, none,
  some, String, arith, Bool-cases, Option-cases, ◌||◌, ◌==◌, not, if◌then◌else◌,
}
use hifi_api_rust.AppError.{AppError}
use hifi_api_rust.Accounts.State.{AccountState, nonempty}
use hifi_api_rust.Accounts.RateLimit.{i64_max}
use hifi_api_rust.Tokens.Cycle.{
  AuthAnswer, Exchange, Once, TokenAttemptFailure, granted, refused, positive, expires_at, install,
  accept, request_once, note_failure, gives_up, attempts_from, Proxies, rotates, request_cycle,
  is_success,
}

-- The token `t`, granted at `now`, is the account's and has some of its life before it.
abbrev pub Holds : ℕ → String → AccountState → Type 0
Holds now t a = (a.access_token ≡ some t) × (str_eq t "" ≡ false) × (now < a.token_expires_at)

expires_at-later : (now secs : ℕ) → 0 < secs → now + 60 < i64_max → now < expires_at now secs
unfolding expires_at
expires_at-later now secs p far = ground arith

nonempty-some : (o : Option String) (t : String) → nonempty o ≡ some t → str_eq t "" ≡ false
nonempty-some none t h = cc
nonempty-some (some s) t h = ground arith

positive-some : (o : Option ℕ) (n : ℕ) → positive o ≡ some n → 0 < n
positive-some none n h = cc
positive-some (some m) n h = ground arith

add_zero : (n : ℕ) → 0 + n ≡ n
add_zero n = omega arith

Once-cases :
    (o : Once) → ((t : String) × (o ≡ granted t)) ⊎ ((f : TokenAttemptFailure) × (o ≡ refused f))
Once-cases (granted t) = inl (t, refl)
Once-cases (refused f) = inr (f, refl)

pub sum-cases {ℓ} : {A B : Type ℓ} (o : A ⊎ B) → ((a : A) × (o ≡ inl a)) ⊎ ((b : B) × (o ≡ inr b))
sum-cases (inl a) = inl (a, refl)
sum-cases (inr b) = inr (b, refl)

-- The exchange ended with a success answer whose access token is `t`.
abbrev pub Grants : Exchange → String → Type 0
Grants x t =
    (r : AuthAnswer) × (x.sent ≡ inl r)
    × (is_success r.status ≡ true)
    × (nonempty r.access_token ≡ some t)

-- The token of a cycle that brings one: the answer to one of the attempts granted it.
abbrev pub Brings : (ℕ → Bool → Exchange) → ℕ → String → AccountState → Type 0
Brings tidal end t b =
    (n : ℕ) × (n < end)
    × Grants (tidal n b.auth_use_basic) t
    × Holds (tidal n b.auth_use_basic).now t b
    × (b.auth_forbidden_streak ≡ 0)

module _ (parse : String → Option ℕ) (clean : String → Option String)
    (describe : ℕ → String → String → String) (denied : ℕ → String → String) where
  accept-Holds :
      (now : ℕ) (r : AuthAnswer) (stored : Option AppError) (a : AccountState) (t : String)
      → now + 60 < i64_max
      → (accept parse clean describe denied now r stored a).1 ≡ granted t
      → (nonempty r.access_token ≡ some t)
        × Holds now t (accept parse clean describe denied now r stored a).0
  unfolding accept install
  accept-Holds now r stored a t far h = elim (Option-cases (nonempty r.access_token)) [
    | inl e ↦ ground arith
    | inr (token, e) ↦ elim (Option-cases (positive r.expires_in)) [
      | inl p ↦ ground arith
      | inr (secs, p) ↦ elim (Option-cases stored) [
        | inl s ↦
            let same : token ≡ t = ground arith in
            rw (accept, e, p, s)
              (
                ap some same,
                (
                  ap some same,
                  subst (λ u. str_eq u "" ≡ false) same (nonempty-some r.access_token token e),
                  expires_at-later now secs (positive-some r.expires_in secs p) far,
                ),
              )
        | inr (x, s) ↦ ground arith
      ]
    ]
  ]

  request_once-Holds :
      (x : Exchange) (a : AccountState) (t : String)
      → x.now + 60 < i64_max
      → (request_once parse clean describe denied x a).1 ≡ granted t
      → Grants x t × Holds x.now t (request_once parse clean describe denied x a).0
  unfolding request_once
  request_once-Holds x a t far h = elim (sum-cases x.sent) [
    | inr (e, s) ↦ ground arith
    | inl (r, s) ↦ elim (Bool-cases (r.status == 429)) [
      | inl e ↦ ground arith
      | inr e ↦ elim (Bool-cases (is_success r.status)) [
        | inr o ↦ ground arith
        | inl o ↦
            let run : request_once parse clean describe denied x a
                ≡ accept parse clean describe denied x.now r x.stored a =
              rw (request_once, s, e, o) refl in
            let taken = accept-Holds x.now r x.stored a t far (rw (← run) h) in
            ((r, s, o, taken.0), rw run taken.1)
      ]
    ]
  ]

  attempts_from-Brings :
      (tidal : ℕ → Bool → Exchange) (left attempt : ℕ) (use_basic : Bool) (a : AccountState)
      (t : String)
      → ((n : ℕ) (form : Bool) → (tidal n form).now + 60 < i64_max)
      → (attempts_from parse clean describe denied tidal left attempt use_basic a).1 ≡ inr t
      → Brings tidal
          (attempt + left)
          t
          (attempts_from parse clean describe denied tidal left attempt use_basic a).0
  unfolding attempts_from
  attempts_from-Brings tidal zero attempt use_basic a t far h = cc
  attempts_from-Brings tidal (suc left) attempt use_basic a t far h =
      let q = request_once parse clean describe denied (tidal attempt use_basic) a in
      elim (Once-cases q.1) [
        | inl (u, e) ↦
            let same : u ≡ t = ground arith in
            let held = request_once-Holds (tidal attempt use_basic) a u (far attempt use_basic) e in
            (
              attempt,
              ground arith,
              rw (attempts_from, e) (subst (λ w. Grants (tidal attempt use_basic) w) same held.0),
              rw (attempts_from, e, ← same) held.1,
              rw (attempts_from, e) refl,
            )
        | inr (f, e) ↦ elim (Bool-cases (gives_up f || left == 0)) [
          | inl g ↦ ground arith
          | inr g ↦
              let next = if f.forbidden then not use_basic else use_basic in
              let c = note_failure f use_basic q.0 in
              let run : attempts_from parse clean describe denied tidal (suc left) attempt use_basic
                    a
                  ≡ attempts_from parse clean describe denied tidal left (attempt + 1) next c =
                rw (attempts_from, e, g) refl in
              let r = attempts_from-Brings tidal left (attempt + 1) next c t far (rw (← run) h) in
              (r.0, ground arith, rw run r.2, rw run r.3, rw run r.4)
        ]
      ]

  -- A cycle that brings a token got it as the access token of a success answer to one of at most four
  -- attempts, to the first one where the account's last refresh failed, and has installed it: the
  -- token is the account's, it is not empty, it expires after the clock of that answer, and the
  -- account remembers the form of that attempt. The clock is more than a minute from the end of the
  -- 64-bit integers.
  pub request_cycle-Brings :
      (p : Proxies) (tidal : ℕ → Bool → Exchange) (a : AccountState) (t : String)
      → ((n : ℕ) (form : Bool) → (tidal n form).now + 60 < i64_max)
      → (request_cycle parse clean describe denied p tidal a).1 ≡ inr t
      → Brings tidal
          (if a.heal_failures == 0 then 4 else 1)
          t
          (request_cycle parse clean describe denied p tidal a).0
  unfolding request_cycle
  request_cycle-Brings p tidal a t far h =
      let b = if rotates p a then record a { auth_forbidden_streak = 0 } else a in
      let same : b.heal_failures ≡ a.heal_failures = ground arith in
      let attempts : ℕ = if b.heal_failures == 0 then 4 else 1 in
      let number : attempts ≡ (if a.heal_failures == 0 then 4 else 1) =
        ap (λ n. if n == 0 then 4 else 1) same in
      elim (Option-cases p.client) [
        | inr (e, c) ↦ ground arith
        | inl c ↦
            let run : request_cycle parse clean describe denied p tidal a
                ≡ attempts_from parse clean describe denied tidal attempts 0 b.auth_use_basic b =
              rw (request_cycle, c) refl in
            rw run (
              subst
                (λ n.
                  Brings tidal n t
                    (attempts_from parse clean describe denied tidal attempts 0 b.auth_use_basic
                      b).0)
                (add_zero attempts ∙ number)
                (attempts_from-Brings tidal attempts 0 b.auth_use_basic b t far (rw (← run) h)))
      ]
