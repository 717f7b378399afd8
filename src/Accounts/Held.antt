-- ===== src/Accounts/Held.antt =====
-- The requests that an account has in flight, over the selections, claims and releases of leases of
-- src/account_manager.rs in any order. A lease is held from the event that takes it to the event that
-- drops it; only held leases are dropped, each once.
use hifi_api_rust.Base.{
  ℕ, zero, suc, ◌+◌, ◌≤◌, ◌≡◌, Bool, true, false, List, [], ◌∷◌, Option, none, some, String,
  if◌then◌else◌, ◌==◌, ◌&&◌, ltb, leb,
}
use hifi_api_rust.Accounts.State.{AccountState}
use hifi_api_rust.Accounts.Lease.{LeaseKind, LeaseRules, playback, metadata, lease_kind, drop_lease}
use hifi_api_rust.Accounts.Select.{
  AccountManager, Pick, granted, busy, failed, update_at, try_lease,
}

-- A `PlaybackLease` that is not yet dropped, with the limit that its selection had, or 0 for none.
pub record Held : Type 0 where
  pub index : ℕ
  pub kind : LeaseKind
  pub rest_ms : ℕ
  pub concurrency : ℕ

pub record Pool : Type 0 where
  pub manager : AccountManager
  pub held : List Held

pub data LeaseEvent : Type 0 where
  -- A pass of the selection.
  take :
      (now now_ms : ℕ) (exclude : List String) (kind : LeaseKind) (rules : LeaseRules) → LeaseEvent
  -- A lease on an account that is already chosen, whatever it has in flight.
  claim : (index now_ms : ℕ) → LeaseEvent
  -- The end of one of the held leases.
  drop : (n now_ms : ℕ) → LeaseEvent

abbrev pub nth : ℕ → List Held → Option Held
nth n [] = none
nth zero (l ∷ ls) = some l
nth (suc n) (l ∷ ls) = nth n ls

abbrev pub without : ℕ → List Held → List Held
without n [] = []
without zero (l ∷ ls) = ls
without (suc n) (l ∷ ls) = l ∷ without n ls

unfoldable pub hold : LeaseKind → LeaseRules → Pick → List Held → List Held
hold kind rules (granted i) held =
    record { index = i; kind = kind; rest_ms = rules.rest_ms; concurrency = rules.concurrency }
    ∷ held
hold kind rules busy held = held
hold kind rules (failed e) held = held

unfoldable pub lease_step : (ℕ → List (ℕ × Bool) → ℕ) → Pool → LeaseEvent → Pool
lease_step penalty s (take now now_ms exclude kind rules) =
    let r = try_lease penalty now now_ms exclude kind rules s.manager in
    record { manager = r.0; held = hold kind rules r.1 s.held }
-- `AccountManager::lease`
lease_step penalty s (claim index now_ms) = record {
  manager = record (s.manager) {
    accounts = update_at index (lease_kind playback now_ms) s.manager.accounts;
  };
  held = record { index = index; kind = playback; rest_ms = 0; concurrency = 0 } ∷ s.held;
}
lease_step penalty s (drop n now_ms) = elim (nth n s.held) [
  | none ↦ s
  | some l ↦ record {
    manager = record (s.manager) {
      accounts = update_at l.index (drop_lease l.kind l.rest_ms now_ms) s.manager.accounts;
    };
    held = without n s.held;
  }
]

unfoldable pub lease_run : (ℕ → List (ℕ × Bool) → ℕ) → List LeaseEvent → Pool → Pool
lease_run penalty [] s = s
lease_run penalty (e ∷ es) s = lease_run penalty es (lease_step penalty s e)

abbrev pub of_playback : LeaseKind → Bool
of_playback playback = true
of_playback metadata = false

abbrev pub of_metadata : LeaseKind → Bool
of_metadata playback = false
of_metadata metadata = true

abbrev pub count : (Held → Bool) → List Held → ℕ
count p [] = 0
count p (l ∷ ls) = (if p l then 1 else 0) + count p ls

-- The leases of the account `i` that are held: of each kind, and by a selection with a limit of at
-- most `limit`.
abbrev pub plays : ℕ → Held → Bool
plays i l = i == l.index && of_playback l.kind

abbrev pub asks : ℕ → Held → Bool
asks i l = i == l.index && of_metadata l.kind

abbrev pub limited : ℕ → ℕ → Held → Bool
limited limit i l = i == l.index && (ltb 0 l.concurrency && leb l.concurrency limit)

-- A fact about every account and its index.
abbrev pub Each : (ℕ → AccountState → Type 0) → ℕ → List AccountState → Type 0
Each P i [] = Unit {0}
Each P i (a ∷ r) = P i a × Each P (suc i) r

-- The counters of an account are the numbers of its held leases, and at most `limit` of these came
-- from selections with such a limit.
abbrev pub Counts : ℕ → List Held → ℕ → AccountState → Type 0
Counts limit held i a =
    (a.playback_inflight ≡ count (plays i) held)
    × (a.metadata_inflight ≡ count (asks i) held)
    × (count (limited limit i) held ≤ limit)

abbrev pub IsCounted : ℕ → Pool → Type 0
IsCounted limit s = Each (Counts limit s.held) 0 s.manager.accounts
