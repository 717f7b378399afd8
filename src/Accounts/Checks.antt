-- ===== src/Accounts/Checks.antt =====
-- What src/account_manager.rs notes about an account's errors and its FULL and PREVIEW answers.
use text.Mathlib.Text.{◌==◌ as str_eq}
use hifi_api_rust.Base.{
  ℕ, ◌+◌, Bool, true, false, ◌&&◌, ◌∷◌, Option, none, some, String, ltb, if◌then◌else◌,
}
use hifi_api_rust.Accounts.State.{AccountState}

abbrev pub traffic_previews_before_preview_only : ℕ
traffic_previews_before_preview_only = 10

abbrev pub preview_checks_before_catalog : ℕ
preview_checks_before_catalog = 3

-- `set_account_catalog` on an account that is in the list.
unfoldable pub set_account_catalog : ℕ → Bool → AccountState → AccountState
set_account_catalog now catalog a = record a { is_catalog = catalog; updated_at = now }

-- `mark_account_error` in memory.
unfoldable pub mark_account_error : ℕ → AccountState → AccountState
mark_account_error now_ms a = record a {
  error_count = a.error_count + 1;
  recent = (now_ms, true) ∷ a.recent;
}

-- `confirm_full`; `now - 60` may be below 0 in the source, so the test adds to the other side.
unfoldable pub confirm_full : ℕ → AccountState → AccountState
confirm_full now a =
    let b = record a { traffic_preview_streak = 0 } in
    if ltb now (b.premium_checked_at + 60) && str_eq b.premium_status "premium"
    then b
    else record b { premium_status = "premium"; premium_checked_at = now; preview_streak = 0 }

-- `note_traffic_preview`
unfoldable pub note_traffic_preview : ℕ → AccountState → AccountState × Bool
note_traffic_preview now a =
    let streak = a.traffic_preview_streak + 1 in
    if ltb streak traffic_previews_before_preview_only
    then (record a { traffic_preview_streak = streak }, false)
    else (
      record a {
        traffic_preview_streak = 0;
        premium_status = "preview-only";
        premium_checked_at = now;
      },
      true,
    )

-- `set_premium` on an account that is in the list.
unfoldable pub set_premium : ℕ → String → AccountState → AccountState
set_premium now status a =
    let b = record a { premium_status = status; premium_checked_at = now } in
    if str_eq status "premium"
    then record b { traffic_preview_streak = 0; preview_streak = 0 }
    else b

-- `note_preview_check`; `stored` says whether the database took the flag, which is in memory by then.
-- Nothing is the error.
unfoldable pub note_preview_check : ℕ → Bool → AccountState → AccountState × Option Bool
note_preview_check now stored a =
    let b = record a { preview_streak = a.preview_streak + 1 } in
    if ltb b.preview_streak preview_checks_before_catalog
    then (b, some false)
    else (if stored
        then (record (set_account_catalog now true b) { preview_streak = 0 }, some true)
        else (set_account_catalog now true b, none))
