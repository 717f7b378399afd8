-- ===== src/Accounts/State.antt =====
-- `AccountState` of src/account_manager.rs without its database handle and locks. The decayed error
-- rate is a float that the source computes from the requests and errors noted so far: `recent` keeps
-- these, newest first, each with its time in milliseconds and whether it is an error. A JSON value
-- that is only stored is kept as its text.
use text.Mathlib.Text.{◌==◌ as str_eq}
use hifi_api_rust.Base.{
  ℕ, ◌+◌, ◌-◌, ◌*◌, Bool, false, not, ◌&&◌, ◌||◌, List, [], ◌∷◌, Option, none, some, String, ltb,
  leb, if◌then◌else◌, length, ◌==◌,
}

pub record AccountState : Type 0 where
  pub id : String
  pub label : String
  pub client_id : String
  pub client_secret : String
  pub refresh_token : String
  pub user_id : Option String
  pub access_token : Option String
  pub token_expires_at : ℕ
  pub is_active : Bool
  pub disabled_at : ℕ
  pub is_catalog : Bool
  pub auto_disabled : Bool
  pub heal_failures : ℕ
  pub heal_next_retry : ℕ
  pub last_refresh_error : Option String
  pub auth_use_basic : Bool
  pub auth_forbidden_streak : ℕ
  pub auth_failing_since : ℕ
  pub traffic_preview_streak : ℕ
  pub country_code : Option String
  pub subscription : Option String
  pub subscription_checked_at : ℕ
  pub subscription_error : Option String
  pub subscription_error_at : ℕ
  pub rejected_access_token : Option String
  pub notes : String
  pub last_used : ℕ
  pub request_count : ℕ
  pub error_count : ℕ
  pub catalog_inflight : ℕ
  pub playback_inflight : ℕ
  pub metadata_inflight : ℕ
  pub rest_until_ms : ℕ
  pub last_pick_ms : ℕ
  pub recent : List (ℕ × Bool)
  pub hour_picks : List ℕ
  pub rate_limited_until : ℕ
  pub rate_limit_strikes : ℕ
  pub premium_status : String
  pub premium_checked_at : ℕ
  pub preview_streak : ℕ
  pub created_at : ℕ
  pub updated_at : ℕ

-- `AccountState::new`; `normalize` is `normalize_client_secret`, a percent decoding.
unfoldable pub new_account :
    (normalize : String → String) (id label client_id client_secret refresh_token : String)
    (user_id : Option String) (is_active : Bool) (notes : String)
    → AccountState
new_account normalize id label client_id client_secret refresh_token user_id is_active notes =
    record {
      id = id;
      label = label;
      client_id = client_id;
      client_secret = normalize client_secret;
      refresh_token = refresh_token;
      user_id = user_id;
      access_token = none;
      token_expires_at = 0;
      is_active = is_active;
      disabled_at = 0;
      is_catalog = false;
      auto_disabled = false;
      heal_failures = 0;
      heal_next_retry = 0;
      last_refresh_error = none;
      auth_use_basic = false;
      auth_forbidden_streak = 0;
      auth_failing_since = 0;
      traffic_preview_streak = 0;
      country_code = none;
      subscription = none;
      subscription_checked_at = 0;
      subscription_error = none;
      subscription_error_at = 0;
      rejected_access_token = none;
      notes = notes;
      last_used = 0;
      request_count = 0;
      error_count = 0;
      catalog_inflight = 0;
      playback_inflight = 0;
      metadata_inflight = 0;
      rest_until_ms = 0;
      last_pick_ms = 0;
      recent = [];
      hour_picks = [];
      rate_limited_until = 0;
      rate_limit_strikes = 0;
      premium_status = "unknown";
      premium_checked_at = 0;
      preview_streak = 0;
      created_at = 0;
      updated_at = 0;
    }

-- Whether two states carry the same OAuth credentials.
unfoldable pub same_credentials : AccountState → AccountState → Bool
same_credentials a b =
    str_eq a.client_id b.client_id
    && str_eq a.client_secret b.client_secret
    && str_eq a.refresh_token b.refresh_token

-- The counters that `carry_over` copies whatever the credentials are.
unfoldable pub carry_metrics : AccountState → AccountState → AccountState
carry_metrics new old = record new {
  last_used = old.last_used;
  request_count = old.request_count;
  error_count = old.error_count;
  last_pick_ms = old.last_pick_ms;
  recent = old.recent;
  hour_picks = old.hour_picks;
  rate_limited_until = old.rate_limited_until;
  rate_limit_strikes = old.rate_limit_strikes;
  created_at = old.created_at;
  token_expires_at = old.token_expires_at;
  is_catalog = old.is_catalog;
  auto_disabled = old.auto_disabled;
  disabled_at = old.disabled_at;
  heal_failures = old.heal_failures;
  subscription = old.subscription;
  subscription_checked_at = old.subscription_checked_at;
  subscription_error = old.subscription_error;
  subscription_error_at = old.subscription_error_at;
  heal_next_retry = old.heal_next_retry;
}

-- `set_country`; `clean` trims, raises to upper case and refuses all but two letters.
unfoldable pub set_country : (String → Option String) → Option String → AccountState → AccountState
set_country clean none a = a
set_country clean (some code) a = elim (clean code) [
  | none ↦ a
  | some c ↦ record a { country_code = some c }
]

-- Which of the old state's locks `carry_over` gets at once: a field behind another one is not carried
-- over.
pub record Free : Type 0 where
  pub token : Bool
  pub rejected : Bool
  pub premium : Bool

-- The part of `carry_over` for a rebuilt state with the same credentials.
unfoldable pub carry_credentials : Free → AccountState → AccountState → AccountState
carry_credentials free new old = record new {
  last_refresh_error = old.last_refresh_error;
  auth_use_basic = old.auth_use_basic;
  auth_forbidden_streak = old.auth_forbidden_streak;
  auth_failing_since = old.auth_failing_since;
  access_token = if free.token then old.access_token else new.access_token;
  rejected_access_token =
      if free.rejected then old.rejected_access_token else new.rejected_access_token;
  premium_status = if free.premium then old.premium_status else new.premium_status;
  premium_checked_at = old.premium_checked_at;
  preview_streak = old.preview_streak;
}

-- The part for changed credentials.
unfoldable pub forget_credentials : AccountState → AccountState
forget_credentials new = record new {
  token_expires_at = 0;
  heal_failures = 0;
  heal_next_retry = 0;
  auth_forbidden_streak = 0;
}

-- `AccountState::carry_over`
unfoldable pub carry_over :
    (String → Option String) → Free → AccountState → AccountState → AccountState
carry_over clean free new old =
    let metrics = set_country clean old.country_code (carry_metrics new old) in
    if same_credentials new old
    then carry_credentials free metrics old
    else forget_credentials metrics

-- `token.as_deref().filter(|token| !token.is_empty())`
abbrev pub nonempty : Option String → Option String
nonempty none = none
nonempty (some t) = if str_eq t "" then none else some t

-- `rejected.as_deref() != Some(token)`
abbrev pub is_rejected : Option String → String → Bool
is_rejected none token = false
is_rejected (some r) token = str_eq r token

-- `AccountState::has_usable_token`
unfoldable pub has_usable_token : ℕ → AccountState → Bool
has_usable_token now a = elim (nonempty a.access_token) [
  | none ↦ false
  | some token ↦ ltb now a.token_expires_at && not (is_rejected a.rejected_access_token token)
]

-- `AccountState::refresh_cooldown`
unfoldable pub refresh_cooldown : ℕ → AccountState → Option ℕ
refresh_cooldown now a =
    if leb a.heal_next_retry now || has_usable_token now a
    then none
    else some (a.heal_next_retry - now)

-- `AccountState::pool_inflight`
unfoldable pub pool_inflight : AccountState → ℕ
pool_inflight a = a.playback_inflight + a.metadata_inflight

abbrev pub hour_ms : ℕ
hour_ms = 3_600_000

-- The loop of `requests_last_hour`: starts of an hour ago or more go. A start `t` is that old when
-- `t <= now - 3600000`, which for times after 1970 is `t + 3600000 <= now`.
unfoldable pub drop_hour : ℕ → List ℕ → List ℕ
drop_hour now_ms [] = []
drop_hour now_ms (t ∷ ts) = if leb (t + hour_ms) now_ms then drop_hour now_ms ts else t ∷ ts

-- `AccountState::requests_last_hour`
unfoldable pub requests_last_hour : ℕ → AccountState → ℕ
requests_last_hour now_ms a = length (drop_hour now_ms a.hour_picks)

abbrev pub full_check_max_age_secs : ℕ
full_check_max_age_secs = 8 * 60 * 60

-- `AccountState::full_tier`
unfoldable pub full_tier : ℕ → AccountState → ℕ
full_tier now a =
    if a.premium_checked_at == 0 || ltb (a.premium_checked_at + full_check_max_age_secs) now
    then 1
    else (if str_eq a.premium_status "premium"
        then 0
        else (if str_eq a.premium_status "preview-only" then 2 else 1))
