-- ===== src/Accounts/Catalog.antt =====
-- The accounts that serve metadata, in src/account_manager.rs.
use hifi_api_rust.Base.{
  ℕ, ◌+◌, ◌-◌, ◌%◌, ◌^◌, Bool, true, false, not, ◌&&◌, List, [], ◌∷◌, Option, none, some, ltb, leb,
  max, keep, length, if◌then◌else◌,
}
use hifi_api_rust.Accounts.State.{AccountState, refresh_cooldown, has_usable_token}
use hifi_api_rust.Accounts.RateLimit.{rate_limit_remaining, rate_limit_heat}
use hifi_api_rust.Accounts.Lease.{note_selection}
use hifi_api_rust.Accounts.Order.{rotate_left}
use hifi_api_rust.Accounts.Select.{AccountManager, enumerate, shorter, update_at}

abbrev pub is_none {ℓ} : {A : Type ℓ} → Option A → Bool
is_none none = true
is_none (some x) = false

-- `AccountState::try_claim_catalog_slot`, at the exchange that ends its loop: the counter that the
-- exchange compares with is the one that the limit was tested on.
unfoldable pub try_claim_catalog_slot : ℕ → AccountState → Option AccountState
try_claim_catalog_slot limit a =
    if ltb 0 limit && leb limit a.catalog_inflight
    then none
    else some (record a { catalog_inflight = a.catalog_inflight + 1 })

-- `Drop` for `CatalogSlot`
unfoldable pub drop_catalog_slot : AccountState → AccountState
drop_catalog_slot a = record a { catalog_inflight = a.catalog_inflight - 1 }

-- Active for metadata, and outside a 429 pause.
unfoldable pub serves_catalog : ℕ → AccountState → Bool
serves_catalog now a = a.is_catalog && a.is_active && is_none (rate_limit_remaining now a)

-- The accounts that `claim_catalog_slot` looks at, with their indices.
unfoldable pub catalog : ℕ → List AccountState → List (ℕ × AccountState)
catalog now accounts =
    keep (λ c. serves_catalog now c.1 && is_none (refresh_cooldown now c.1)) (enumerate 0 accounts)

-- `sort_by_key` by recent 429s, which is stable
unfoldable pub insert_by_heat :
    ℕ → ℕ × AccountState → List (ℕ × AccountState) → List (ℕ × AccountState)
insert_by_heat now c [] = c ∷ []
insert_by_heat now c (d ∷ ds) =
    let rest = insert_by_heat now c ds in
    if leb (rate_limit_heat now c.1) (rate_limit_heat now d.1) then c ∷ d ∷ ds else d ∷ rest

unfoldable pub sort_by_heat : ℕ → List (ℕ × AccountState) → List (ℕ × AccountState)
sort_by_heat now [] = []
sort_by_heat now (c ∷ cs) = insert_by_heat now c (sort_by_heat now cs)

-- The loop that claims the first free slot.
unfoldable pub claim_first : ℕ → List (ℕ × AccountState) → Option (ℕ × AccountState)
claim_first limit [] = none
claim_first limit (c ∷ cs) =
    let rest = claim_first limit cs in
    elim (try_claim_catalog_slot limit c.1) [ some a ↦ some (c.0, a) | none ↦ rest ]

pub data CatalogClaim : Type 0 where
  slot : (index : ℕ) → CatalogClaim
  all_busy unavailable : CatalogClaim

-- The end of `claim_catalog_slot`, from the accounts in the order in which they are tried.
unfoldable pub claim_in :
    ℕ → ℕ → List (ℕ × AccountState) → AccountManager → AccountManager × CatalogClaim
claim_in limit now_ms cs m = elim (claim_first limit cs) [
  | some c ↦
      (record m { accounts = update_at c.0 (λ a. note_selection now_ms c.1) m.accounts }, slot c.0)
  | none ↦ (m, all_busy)
]

-- `AccountManager::claim_catalog_slot`
unfoldable pub claim_catalog_slot : ℕ → ℕ → ℕ → AccountManager → AccountManager × CatalogClaim
claim_catalog_slot limit now now_ms m = elim (catalog now m.accounts) [
  | [] ↦ (m, unavailable)
  | c ∷ cs ↦
      claim_in limit now_ms
        (sort_by_heat now (rotate_left (m.catalog_rr % length (c ∷ cs)) (c ∷ cs)))
        (record m { catalog_rr = (m.catalog_rr + 1) % 2 ^ 64 })
]

-- `accounts[i]`
abbrev pub head_of {ℓ} : {A : Type ℓ} → List A → Option A
head_of [] = none
head_of (x ∷ xs) = some x

-- `AccountManager::next_active_catalog`: `catalog[seq % len]` is the first after a rotation.
unfoldable pub next_active_catalog : ℕ → ℕ → AccountManager → AccountManager × Option ℕ
next_active_catalog now now_ms m =
    let found = keep (λ c. serves_catalog now c.1) (enumerate 0 m.accounts) in
    elim (head_of (rotate_left (m.catalog_rr % max 1 (length found)) found)) [
      | none ↦ (m, none)
      | some c ↦ (
        record m {
          accounts = update_at c.0 (note_selection now_ms) m.accounts;
          catalog_rr = (m.catalog_rr + 1) % 2 ^ 64;
        },
        some c.0,
      )
    ]

-- `AccountManager::catalog_rate_limit_remaining`
unfoldable pub catalog_rate_limit_remaining : ℕ → List AccountState → Option ℕ
catalog_rate_limit_remaining now [] = none
catalog_rate_limit_remaining now (a ∷ accounts) =
    let rest = catalog_rate_limit_remaining now accounts in
    if a.is_catalog && a.is_active
    then (elim (rate_limit_remaining now a) [ none ↦ rest | some seconds ↦ shorter seconds rest ])
    else rest

unfoldable pub is_catalog_active : AccountState → Bool
is_catalog_active a = a.is_catalog && a.is_active

-- `AccountManager::find_catalog_account`
unfoldable pub find_catalog_account : List AccountState → Option AccountState
find_catalog_account accounts = elim (head_of (keep is_catalog_active accounts)) [
  | some a ↦ some a
  | none ↦ head_of (keep (λ a. a.is_catalog) accounts)
]

-- `AccountManager::playback_slots`
unfoldable pub playback_slots : ℕ → List AccountState → ℕ
playback_slots now accounts =
    max
      (length (
        keep
          (λ a.
            not a.is_catalog
            && a.is_active
            && is_none (rate_limit_remaining now a)
            && has_usable_token now a)
          accounts))
      1

-- `AccountManager::playback_count`
unfoldable pub playback_count : List AccountState → ℕ
playback_count accounts = length (keep (λ a. not a.is_catalog && a.is_active) accounts)
