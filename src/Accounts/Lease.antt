-- ===== src/Accounts/Lease.antt =====
-- Leases of src/account_manager.rs: what taking and returning one does to its account.
use hifi_api_rust.Base.{
  ℕ, ◌+◌, ◌-◌, ◌/◌, Bool, false, [], ◌∷◌, ◌++◌, max, ltb, leb, ◌==◌, ◌&&◌, ◌||◌, if◌then◌else◌,
}
use hifi_api_rust.Accounts.State.{AccountState, pool_inflight, requests_last_hour, drop_hour}

pub data LeaseKind : Type 0 where
  playback metadata : LeaseKind

pub record LeaseRules : Type 0 where
  pub concurrency : ℕ
  pub rest_ms : ℕ
  pub per_hour : ℕ

-- `LeaseKind::counter` with `fetch_add(1)` and with `fetch_sub(1)`.
unfoldable pub take_slot : LeaseKind → AccountState → AccountState
take_slot playback a = record a { playback_inflight = a.playback_inflight + 1 }
take_slot metadata a = record a { metadata_inflight = a.metadata_inflight + 1 }

unfoldable pub free_slot : LeaseKind → AccountState → AccountState
free_slot playback a = record a { playback_inflight = a.playback_inflight - 1 }
free_slot metadata a = record a { metadata_inflight = a.metadata_inflight - 1 }

-- `AccountManager::note_selection`
unfoldable pub note_selection : ℕ → AccountState → AccountState
note_selection now_ms a = record a {
  last_used = now_ms / 1000;
  last_pick_ms = now_ms;
  request_count = a.request_count + 1;
  recent = (now_ms, false) ∷ a.recent;
  hour_picks = a.hour_picks ++ now_ms ∷ [];
}

-- `AccountManager::lease_kind`
unfoldable pub lease_kind : LeaseKind → ℕ → AccountState → AccountState
lease_kind kind now_ms a = note_selection now_ms (take_slot kind a)

-- `Drop` for `PlaybackLease`
unfoldable pub drop_lease : LeaseKind → ℕ → ℕ → AccountState → AccountState
drop_lease kind rest_ms now_ms a = free_slot kind (record a {
  rest_until_ms = if ltb 0 rest_ms then max a.rest_until_ms (now_ms + rest_ms) else a.rest_until_ms;
})

-- The account is below its limit of requests and has rested.
unfoldable pub has_slot : LeaseRules → ℕ → AccountState → Bool
has_slot rules now_ms a =
    (rules.concurrency == 0 || ltb (pool_inflight a) rules.concurrency)
    && leb a.rest_until_ms now_ms

-- The test of `try_lease` that makes a usable account eligible.
unfoldable pub is_free : LeaseRules → ℕ → AccountState → Bool
is_free rules now_ms a =
    has_slot rules now_ms a
    && (rules.per_hour == 0 || ltb (requests_last_hour now_ms a) rules.per_hour)

-- What the test leaves behind: `requests_last_hour` drops the starts that are an hour old.
unfoldable pub forget_hour : LeaseRules → ℕ → AccountState → AccountState
forget_hour rules now_ms a =
    if rules.per_hour == 0
    then a
    else (if has_slot rules now_ms a
        then record a { hour_picks = drop_hour now_ms a.hour_picks }
        else a)
