-- ===== src/Accounts/Previews.antt =====
-- PREVIEW answers in a row to real track requests, of src/account_manager.rs.
use hifi_api_rust.Base.{◌⊎◌, ℕ, ◌+◌, ◌≤◌, ◌<◌, ◌≡◌, List, [], ◌∷◌, arith, length, true, false}
use text.Mathlib.TextEquality.{eq_iff}
use hifi_api_rust.Accounts.State.{AccountState}
use hifi_api_rust.Accounts.Checks.{confirm_full, note_traffic_preview}

-- PREVIEW answers in a row, with the seconds of each.
unfoldable pub previews : List ℕ → AccountState → AccountState
previews [] a = a
previews (now ∷ times) a = previews times (note_traffic_preview now a).0

previews-status :
    (times : List ℕ) (a : AccountState)
    → a.traffic_preview_streak + length times < 10
    → ((previews times a).premium_status ≡ a.premium_status)
      × ((previews times a).traffic_preview_streak ≡ a.traffic_preview_streak + length times)
unfolding previews note_traffic_preview
previews-status [] a h = ground arith
previews-status (now ∷ times) a h =
    ground (arith, previews-status times (note_traffic_preview now a).0)

confirm_full-fresh :
    (now : ℕ) (a : AccountState)
    → ((confirm_full now a).premium_status ≡ "premium")
      × ((confirm_full now a).traffic_preview_streak ≡ 0)
unfolding confirm_full
confirm_full-fresh now a = ground (arith, eq_iff a.premium_status "premium")

-- After an answer in FULL an account counts as FULL through nine PREVIEW answers in a row, and the
-- tenth marks it PREVIEW-only and starts the count again.
pub previews-tenth :
    (now last : ℕ) (times : List ℕ) (a : AccountState)
    → length times ≤ 9
    → let b = previews times (confirm_full now a) in
      (b.premium_status ≡ "premium")
      × (((length times < 9)
            × ((note_traffic_preview last b).1 ≡ false)
            × ((note_traffic_preview last b).0.premium_status ≡ "premium"))
          ⊎ ((length times ≡ 9)
              × ((note_traffic_preview last b).1 ≡ true)
              × ((note_traffic_preview last b).0.premium_status ≡ "preview-only")
              × ((note_traffic_preview last b).0.traffic_preview_streak ≡ 0)))
unfolding note_traffic_preview
previews-tenth now last times a h =
    let f = confirm_full-fresh now a in
    ground (arith, f, previews-status times (confirm_full now a))
