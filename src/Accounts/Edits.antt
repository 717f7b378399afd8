-- ===== src/Accounts/Edits.antt =====
-- `AccountManager::update_account` of src/account_manager.rs, and what an edit keeps.
use text.Mathlib.Text.{◌==◌ as str_eq}
use hifi_api_rust.Base.{ℕ, ◌≡◌, List, [], ◌∷◌, Option, none, some, String, arith, if◌then◌else◌}
use hifi_api_rust.Accounts.State.{
  AccountState, new_account, Free, carry_over, carry_metrics, carry_credentials, forget_credentials,
  set_country,
}

-- The optional fields of the request.
pub record Edit : Type 0 where
  pub label : Option String
  pub client_id : Option String
  pub client_secret : Option String
  pub refresh_token : Option String
  pub user_id : Option String

abbrev pub or_else : Option String → Option String → Option String
or_else none o = o
or_else (some s) o = some s

abbrev pub or_text : Option String → String → String
or_text none s = s
or_text (some t) s = t

module _ (normalize : String → String) (clean : String → Option String) where
  -- The new state that the edit describes.
  unfoldable pub edited : Edit → AccountState → AccountState
  edited e old =
      new_account normalize old.id (or_text e.label old.label) (or_text e.client_id old.client_id)
        (or_text e.client_secret old.client_secret) (or_text e.refresh_token old.refresh_token)
        (or_else e.user_id old.user_id) old.is_active old.notes

  -- The state that replaces an account: rebuilt from the edit, with the old one carried over.
  unfoldable pub rebuild : Free → ℕ → Edit → AccountState → AccountState
  rebuild free now e old = record (carry_over clean free (edited e old) old) { updated_at = now }

  -- `update_account`: the first account with the id is replaced; `none` is the 404.
  unfoldable pub update_account :
      Free → ℕ → String → Edit → List AccountState → Option (List AccountState)
  update_account free now id e [] = none
  update_account free now id e (a ∷ r) =
      let rest = update_account free now id e r in
      if str_eq a.id id
      then some (rebuild free now e a ∷ r)
      else (elim rest [ none ↦ none | some r' ↦ some (a ∷ r') ])

  -- No edit lets an account out of a 429 pause, out of its catalog role, or out of its owner's or the
  -- system's switch, and none touches its counters.
  pub rebuild-keeps :
      (free : Free) (now : ℕ) (e : Edit) (a : AccountState)
      → let b = rebuild free now e a in
        (b.id ≡ a.id)
        × (b.is_active ≡ a.is_active)
        × (b.auto_disabled ≡ a.auto_disabled)
        × (b.is_catalog ≡ a.is_catalog)
        × (b.rate_limited_until ≡ a.rate_limited_until)
        × (b.rate_limit_strikes ≡ a.rate_limit_strikes)
        × (b.request_count ≡ a.request_count)
        × (b.error_count ≡ a.error_count)
        × (b.hour_picks ≡ a.hour_picks)
        × (b.last_pick_ms ≡ a.last_pick_ms)
  unfolding rebuild edited carry_over carry_metrics carry_credentials forget_credentials set_country
      new_account
  rebuild-keeps free now e a = ground arith
