-- ===== src/Accounts/Select.antt =====
-- `AccountManager::try_lease` of src/account_manager.rs. A pass reads the clock several times within
-- one lock: here `now` (seconds) and `now_ms` are the same all through.
use text.Mathlib.Text.{◌==◌ as str_eq}
use hifi_api_rust.Base.{
  ℕ, zero, suc, ◌+◌, ◌%◌, ◌^◌, Bool, false, not, ◌||◌, List, [], ◌∷◌, Option, none, some, String,
  min, any, keep, map, length, if◌then◌else◌,
}
use hifi_api_rust.AppError.{
  AppError, internal, rate_limited, service_unavailable, service_unavailable_retry,
}
use hifi_api_rust.Accounts.State.{AccountState, refresh_cooldown, full_tier, pool_inflight}
use hifi_api_rust.Accounts.RateLimit.{rate_limit_remaining, rate_limit_heat}
use hifi_api_rust.Accounts.Lease.{
  LeaseKind, playback, metadata, LeaseRules, lease_kind, is_free, forget_hour,
}
use hifi_api_rust.Accounts.Order.{Score, sort_scores, rotate_left}

-- `AccountManager` in memory: the accounts and its two round-robin counters.
pub record AccountManager : Type 0 where
  pub accounts : List AccountState
  pub rr_seq : ℕ
  pub catalog_rr : ℕ

-- What the loop of `try_lease` finds out about an account.
pub data Standing : Type 0 where
  skipped ready : Standing
  paused cooling : ℕ → Standing

unfoldable pub standing : ℕ → AccountState → Standing
standing now a =
    if not a.is_active || a.is_catalog then skipped else elim (rate_limit_remaining now a) [
      | some seconds ↦ paused seconds
      | none ↦ elim (refresh_cooldown now a) [ some seconds ↦ cooling seconds | none ↦ ready ]
    ]

-- `exclude_ids.contains`
unfoldable pub is_excluded : List String → AccountState → Bool
is_excluded exclude a = any (λ id. str_eq id a.id) exclude

-- `shortest.map_or(seconds, |old| old.min(seconds))`
abbrev pub shorter : ℕ → Option ℕ → Option ℕ
shorter seconds none = some seconds
shorter seconds (some old) = some (min old seconds)

unfoldable pub shortest_pause : ℕ → List String → List AccountState → Option ℕ
shortest_pause now exclude [] = none
shortest_pause now exclude (a ∷ accounts) =
    let rest = shortest_pause now exclude accounts in
    elim (standing now a) [
      | paused seconds ↦ if is_excluded exclude a then rest else shorter seconds rest
      | _ ↦ rest
    ]

unfoldable pub shortest_cooldown : ℕ → List AccountState → Option ℕ
shortest_cooldown now [] = none
shortest_cooldown now (a ∷ accounts) =
    let rest = shortest_cooldown now accounts in
    elim (standing now a) [ cooling seconds ↦ shorter seconds rest | _ ↦ rest ]

-- `iter().enumerate()`, from an index on
unfoldable pub enumerate : ℕ → List AccountState → List (ℕ × AccountState)
enumerate i [] = []
enumerate i (a ∷ accounts) = (i, a) ∷ enumerate (suc i) accounts

-- An account of `pool` that is not excluded.
unfoldable pub is_usable : ℕ → List String → AccountState → Bool
is_usable now exclude a = elim (standing now a) [ ready ↦ not (is_excluded exclude a) | _ ↦ false ]

unfoldable pub usable : ℕ → List String → List AccountState → List (ℕ × AccountState)
usable now exclude accounts = keep (λ p. is_usable now exclude p.1) (enumerate 0 accounts)

unfoldable pub eligible :
    ℕ → ℕ → List String → LeaseRules → List AccountState → List (ℕ × AccountState)
eligible now now_ms exclude rules accounts =
    keep (λ p. is_free rules now_ms p.1) (usable now exclude accounts)

pub data Pick : Type 0 where
  granted : (index : ℕ) → Pick
  busy : Pick
  failed : AppError → Pick

-- The error when no account is usable.
unfoldable pub unavailable : ℕ → List String → List AccountState → AppError
unavailable now exclude accounts = elim (shortest_pause now exclude accounts) [
  | some seconds ↦ rate_limited seconds
  | none ↦ elim (shortest_cooldown now accounts) [
    | some seconds ↦
        service_unavailable_retry "All accounts are waiting for a token refresh" seconds
    | none ↦ service_unavailable "All accounts are inactive or have expired tokens"
  ]
]

abbrev no_accounts : String
no_accounts = "No Tidal credentials available; add an account via the admin panel"

-- `accounts[i]` changed
unfoldable pub update_at : ℕ → (AccountState → AccountState) → List AccountState → List AccountState
update_at i f [] = []
update_at zero f (a ∷ accounts) = f a ∷ accounts
update_at (suc i) f (a ∷ accounts) = a ∷ update_at i f accounts

-- `scored[0].4` after the rotation and the sort.
unfoldable pub first_index : List Score → Pick
first_index [] = busy
first_index (s ∷ ss) = granted s.index

-- From the usable accounts and the scores of the eligible ones.
unfoldable pub pick_from : ℕ → AppError → List (ℕ × AccountState) → List Score → Pick
pick_from seq error [] [] = failed error
pick_from seq error (u ∷ us) [] = busy
pick_from seq error us (s ∷ ss) =
    first_index (sort_scores (rotate_left (seq % length (s ∷ ss)) (s ∷ ss)))

-- The accounts after the tests of the pass.
unfoldable pub tested : ℕ → ℕ → List String → LeaseRules → List AccountState → List AccountState
tested now now_ms exclude rules accounts =
    map (λ a. if is_usable now exclude a then forget_hour rules now_ms a else a) accounts

-- The pass hands out the lease.
unfoldable pub hand_out : LeaseKind → ℕ → AccountManager → Pick → AccountManager
hand_out kind now_ms m (granted i) = record m {
  accounts = update_at i (lease_kind kind now_ms) m.accounts;
  rr_seq = (m.rr_seq + 1) % 2 ^ 64;
}
hand_out kind now_ms m busy = m
hand_out kind now_ms m (failed e) = m

-- `penalty` is the float product of `effective_last_use` as a number of milliseconds, from the
-- requests and errors noted so far.
module _ (penalty : ℕ → List (ℕ × Bool) → ℕ) where
  unfoldable pub effective_last_use : ℕ → AccountState → ℕ
  effective_last_use now_ms a = a.last_pick_ms + penalty now_ms a.recent

  unfoldable pub score : LeaseKind → ℕ → ℕ → ℕ × AccountState → Score
  score kind now now_ms c = record {
    tier = elim kind [ playback ↦ full_tier now c.1 | metadata ↦ 0 ];
    busy = pool_inflight c.1;
    heat = rate_limit_heat now c.1;
    last_use = effective_last_use now_ms c.1;
    index = c.0;
  }

  unfoldable pub choose :
      ℕ → ℕ → List String → LeaseKind → LeaseRules → ℕ → List AccountState → Pick
  choose now now_ms exclude kind rules seq [] = failed (internal no_accounts)
  choose now now_ms exclude kind rules seq (a ∷ rest) =
      pick_from seq (unavailable now exclude (a ∷ rest)) (usable now exclude (a ∷ rest))
        (map (score kind now now_ms) (eligible now now_ms exclude rules (a ∷ rest)))

  unfoldable pub try_lease :
      ℕ → ℕ → List String → LeaseKind → LeaseRules → AccountManager → AccountManager × Pick
  try_lease now now_ms exclude kind rules m =
      let pick = choose now now_ms exclude kind rules m.rr_seq m.accounts in
      let after = record m { accounts = tested now now_ms exclude rules m.accounts } in
      (hand_out kind now_ms after pick, pick)
