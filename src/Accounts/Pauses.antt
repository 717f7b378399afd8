-- ===== src/Accounts/Pauses.antt =====
-- How long a 429 keeps an account out of selection.
use native.Mathlib.Nat.{pow-suc}
use hifi_api_rust.Base.{
  ℕ, zero, suc, ◌+◌, ◌-◌, ◌*◌, ◌^◌, ◌≤◌, ◌<◌, ◌≡◌, ◌≢◌, ◌⊎◌, inl, inr, Option, String, Bool, true,
  false, List, Has, arith, min, max, sym, subst, ◌∙◌,
}
use hifi_api_rust.Accounts.State.{AccountState}
use hifi_api_rust.Accounts.RateLimit.{
  rate_limit_remaining, rate_limit_pause_secs, stored_strikes, pause_account, rate_limit_max_secs,
  u64_max, i64_max, retry_after_secs, strike,
}
use hifi_api_rust.Accounts.Lease.{LeaseKind, LeaseRules}
use hifi_api_rust.Accounts.Select.{choose, granted, enumerate, is_usable, standing}
use hifi_api_rust.Accounts.Best.{choose-cases}
use hifi_api_rust.Accounts.Bound.{Has-enumerate_unique}

pub pow_pos : (k : ℕ) → 1 ≤ 2 ^ k
pow_pos zero = omega arith
pow_pos (suc k) = omega (arith, pow-suc 2 k, pow_pos k)

grown : (base k : ℕ) → base ≤ base * 2 ^ min (k - 1) 16
grown base k = grind (arith, pow_pos (min (k - 1) 16))

-- A pause is never shorter than Tidal asked for, and never longer than fifteen minutes unless Tidal
-- asked for longer.
pub pause_bounds :
    (base k : ℕ)
    → base ≤ u64_max
    → (base ≤ rate_limit_pause_secs base k)
      × (rate_limit_pause_secs base k ≤ max rate_limit_max_secs base)
unfolding rate_limit_pause_secs
pause_bounds base k h = (omega (arith, grown base k), omega arith)

pow_step : (j : ℕ) → j ≤ 15 → 2 ^ min (suc j) 16 ≡ 2 * 2 ^ min j 16
pow_step j h =
    let left : min (suc j) 16 ≡ suc j = omega arith in
    let right : min j 16 ≡ j = omega arith in rw (left, right, pow-suc 2 j) (omega arith)

-- From one strike to the next the pause doubles, up to the cap, for the first sixteen strikes.
pub pause_doubles :
    (base j : ℕ)
    → j ≤ 15
    → base * 2 ^ min (suc j) 16 ≤ u64_max
    → rate_limit_pause_secs base (suc (suc j))
      ≡ min (2 * rate_limit_pause_secs base (suc j)) (max rate_limit_max_secs base)
unfolding rate_limit_pause_secs
pause_doubles base j small fits = grind (arith, pow_step j small)

granted-index : {i j : ℕ} → granted i ≡ granted j → i ≡ j
granted-index e = ground arith

-- A 429 ends no pause early, and asks for one that is not shorter than Tidal wants.
pause_account-until :
    (parse : String → Option ℕ) (now : ℕ) (retry_after : Option String) (a : AccountState)
    → now + retry_after_secs parse retry_after ≤ i64_max
    → let until = (pause_account parse now retry_after a).0.rate_limited_until in
      (a.rate_limited_until ≤ until) × (now + retry_after_secs parse retry_after ≤ until)
unfolding pause_account
pause_account-until parse now retry_after a far =
    let base = retry_after_secs parse retry_after in
    let small : base ≤ u64_max = omega arith in
    let bounds = pause_bounds base (strike now a) small in (omega arith, omega (arith, bounds.0))

paused-unusable :
    (later : ℕ) (exclude : List String) (b : AccountState)
    → later < b.rate_limited_until
    → is_usable later exclude b ≡ false
unfolding is_usable standing rate_limit_remaining
paused-unusable later exclude b early = ground arith

-- Until the end of the pause that a 429 asks for, and of the one that ran before it, the account is
-- not usable.
pause_account-unusable :
    (parse : String → Option ℕ) (now later : ℕ) (retry_after : Option String) (a : AccountState)
    (exclude : List String)
    → now + retry_after_secs parse retry_after ≤ i64_max
    → (later < a.rate_limited_until) ⊎ (later < now + retry_after_secs parse retry_after)
    → is_usable later exclude (pause_account parse now retry_after a).0 ≡ false
pause_account-unusable parse now later retry_after a exclude far early =
    let until = pause_account-until parse now retry_after a far in
    paused-unusable later exclude (pause_account parse now retry_after a).0
      (elim early [ inl e ↦ omega arith | inr e ↦ omega arith ])

-- After a 429, no selection grants the account before the pause is over that Tidal asked for, or,
-- if it ends later, the pause that the account had already: whatever the other accounts, the limits
-- and the exclusions of the selection are. The asked pause ends within the signed 64-bit integers.
pub pause_account-chosen :
    (penalty : ℕ → List (ℕ × Bool) → ℕ) (parse : String → Option ℕ) (now later later_ms : ℕ)
    (retry_after : Option String) (a : AccountState) (exclude : List String) (kind : LeaseKind)
    (rules : LeaseRules) (seq i : ℕ) (accounts : List AccountState)
    → now + retry_after_secs parse retry_after ≤ i64_max
    → (later < a.rate_limited_until) ⊎ (later < now + retry_after_secs parse retry_after)
    → Has (i, (pause_account parse now retry_after a).0) (enumerate 0 accounts)
    → choose penalty later later_ms exclude kind rules seq accounts ≢ granted i
pause_account-chosen penalty parse now later later_ms retry_after a exclude kind rules seq i
      accounts far early at chosen =
    let off = pause_account-unusable parse now later retry_after a exclude far early in
    elim (choose-cases penalty later later_ms exclude kind rules seq accounts) [
      | inl r ↦
          let n : r.0.0 ≡ i = granted-index (sym r.1 ∙ chosen) in
          let same =
            Has-enumerate_unique 0 i r.0.1 (pause_account parse now retry_after a).0 accounts
              (subst (λ k. Has (k, r.0.1) (enumerate 0 accounts)) n r.2.0.0) at in
          let on = subst (λ b. is_usable later exclude b ≡ true) same r.2.0.1 in cc
      | inr r ↦ elim r.1 [
        | inl u ↦ let e = sym u.3 ∙ chosen in cc
        | inr f ↦ let e = sym f.1.1 ∙ chosen in cc
      ]
    ]

-- 429s that arrive while the account is paused are one burst: they add no strike. One that arrives
-- within half an hour after the pause adds exactly one, and a later one starts again at one.
pub pause_account-strikes :
    (parse : String → Option ℕ) (now : ℕ) (retry_after : Option String) (a : AccountState)
    → ((now < a.rate_limited_until)
        × ((pause_account parse now retry_after a).0.rate_limit_strikes ≡ a.rate_limit_strikes))
      ⊎ ((0 < a.rate_limited_until)
          × (a.rate_limited_until ≤ now)
          × (now ≤ a.rate_limited_until + 1800)
          × ((pause_account parse now retry_after a).0.rate_limit_strikes
              ≡ a.rate_limit_strikes + 1))
      ⊎ ((a.rate_limited_until ≤ now)
          × ((a.rate_limited_until ≡ 0) ⊎ (a.rate_limited_until + 1800 < now))
          × ((pause_account parse now retry_after a).0.rate_limit_strikes ≡ 1))
unfolding pause_account stored_strikes
pause_account-strikes parse now retry_after a = ground arith
