-- ===== src/Examples/Tokens.antt =====
-- src/token_manager.rs at concrete inputs.
use hifi_api_rust.Base.{
  ℕ, ◌<◌, ◌≡◌, ◌≢◌, refl, ◌⊎◌, inl, inr, Bool, true, false, Option, none, some, String, arith,
  if◌then◌else◌, ◌==◌,
}
use hifi_api_rust.AppError.{AppError, upstream_error, unauthorized}
use hifi_api_rust.Accounts.State.{AccountState, new_account}
use hifi_api_rust.Accounts.OwnerOff.{power, on, system_off, owner_off}
use hifi_api_rust.Tokens.Cached.{cached_token, reject_access_token, shared_token}
use hifi_api_rust.Tokens.Refresh.{
  token, request, try_shared, check_wait, refresh_head, refresh_failed, is_unauthorized,
  is_forbidden,
}
use hifi_api_rust.Tokens.Cycle.{
  AuthAnswer, Exchange, Proxies, request_cycle, attempts_from, request_once, accept, note_failure,
  refusal,
}
use hifi_api_rust.Tokens.Served.{HeadEnds, refresh_head-HeadEnds}
use hifi_api_rust.Tokens.Outcomes.{refresh_failed-spaced, refresh_failed-power}
use hifi_api_rust.Tokens.Attempts.{Brings, request_cycle-Brings}
use hifi_api_rust.Tokens.Entry.{
  Visit, timed_cycle, conclude, after_head, refresh, refresh_after_unauthorized,
}
use hifi_api_rust.Tokens.Ends.{Ends, refresh-Ends}

abbrev account : AccountState
account = record (new_account (λ s. s) "a" "account" "client" "secret" "refresh" none true "") {
  access_token = some "old";
  token_expires_at = 1_000;
}

abbrev shared : Option (String × ℕ)
shared = some ("fresh", 2_000)

abbrev show : AppError → String
show e = "error"

refresh_head-HeadEnds_example :
    HeadEnds 100 (some "old") true account (refresh_head 100 shared (some "old") true account)
refresh_head-HeadEnds_example = refresh_head-HeadEnds 100 shared (some "old") true account

takes_shared :
    (refresh_head 100 shared (some "old") true (reject_access_token "old" account)).1
    ≡ token "fresh"
unfolding reject_access_token new_account refresh_head cached_token check_wait try_shared
    shared_token
takes_shared = refl

refresh_failed-spaced_example :
    (refresh_head 120 shared none false
      (refresh_failed show 100 3 (upstream_error 403 "no") account).0).1
    ≢ request
refresh_failed-spaced_example =
    refresh_failed-spaced show 100 3 120 (upstream_error 403 "no") account shared none false
      (omega arith) (omega arith)

refresh_failed-power_example :
    (is_unauthorized (unauthorized "no") ≡ false
      → power (refresh_failed show 100 3 (unauthorized "no") account).0 ≡ power account)
    × (power account ≡ owner_off
        → power (refresh_failed show 100 3 (unauthorized "no") account).0 ≡ owner_off)
    × (is_unauthorized (unauthorized "no") ≡ true
        → power account ≡ on
        → power (refresh_failed show 100 3 (unauthorized "no") account).0 ≡ system_off)
    × (is_forbidden (unauthorized "no") ≡ false
        → (refresh_failed show 100 3 (unauthorized "no") account).0.auth_failing_since
          ≡ account.auth_failing_since)
    × (0 < account.auth_failing_since
        → (refresh_failed show 100 3 (unauthorized "no") account).0.auth_failing_since
          ≡ account.auth_failing_since)
refresh_failed-power_example = refresh_failed-power show 100 3 (unauthorized "no") account

-- Tidal refuses the form with the secret in the body and accepts the other one.
abbrev answer_with : Bool → AuthAnswer
answer_with use_basic = record {
  status = if use_basic then 200 else 403;
  retry_after = none;
  oauth_error = "";
  description = "";
  access_token = some "new";
  expires_in = some 3_600;
  rotated = none;
  country = none;
}

abbrev tidal : ℕ → Bool → Exchange
tidal n use_basic = record { now = 100; sent = inl (answer_with use_basic); stored = none }

abbrev no_proxy : Proxies
no_proxy = record { enabled = false; rotate_on_refresh = false; client = none }

abbrev no_text : ℕ → String → String → String
no_text status code text = "refused"

abbrev no_number : String → Option ℕ
no_number s = none

abbrev no_country : String → Option String
no_country s = none

abbrev cycle : AccountState × (AppError ⊎ String)
cycle = request_cycle no_number no_country no_text (λ s c. "denied") no_proxy tidal account

second_form : cycle.1 ≡ inr "new"
unfolding request_cycle attempts_from request_once accept note_failure refusal new_account
second_form = refl

request_cycle-Brings_example :
    Brings tidal
      (if account.heal_failures == 0 then 4 else 1)
      "new"
      (request_cycle no_number no_country no_text (λ s c. "denied") no_proxy tidal account).0
request_cycle-Brings_example =
    request_cycle-Brings no_number no_country no_text (λ s c. "denied") no_proxy tidal account "new"
      (λ n form. omega arith) second_form

-- A request that Tidal refused with 401, when Redis holds no other token.
abbrev visit : Visit
visit = record { now = 100; shared = none; cut = none; ended = 110; jitter = 3 }

abbrev after_401 : AccountState
after_401 = reject_access_token "old" account

refresh_after_401 :
    (refresh_after_unauthorized no_number no_country no_text
      (λ s c. "denied")
      show
      no_proxy
      tidal
      visit
      "old"
      account).1
    ≡ inr "new"
unfolding refresh_after_unauthorized refresh after_head refresh_head cached_token check_wait
    try_shared shared_token timed_cycle conclude request_cycle attempts_from request_once accept
    note_failure refusal reject_access_token new_account
refresh_after_401 = refl

refresh-Ends_example : Ends tidal visit (some "old") true after_401 (
    refresh no_number no_country no_text
      (λ s c. "denied")
      show
      no_proxy
      tidal
      visit
      (some "old")
      true
      after_401)
refresh-Ends_example =
    refresh-Ends no_number no_country no_text (λ s c. "denied") show no_proxy tidal visit
      (λ n form. omega arith) (some "old") true after_401
