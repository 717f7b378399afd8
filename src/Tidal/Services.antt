-- ===== src/Tidal/Services.antt =====
-- What src/tidal_client.rs asks of the other parts and of the network. `W` is the state of everything
-- outside the client: accounts, tokens, proxies, the clock and Tidal itself. Headers, the query and
-- the texts of logs are left out.
use Prim.Native.String.{String}
use text.Mathlib.Text.{starts_with, ◌==◌ as str_eq}
use hifi_api_rust.Base.{
  ℕ, Bool, false, ◌||◌, List, ◌∷◌, Option, none, some, ◌⊎◌, inl, inr, if◌then◌else◌,
}
use hifi_api_rust.AppError.{AppError, service_unavailable, timeout, bad_gateway}
use hifi_api_rust.Accounts.Lease.{LeaseKind}

-- An answer of Tidal; reading its body can fail.
pub record Response : Type 0 where
  pub status : ℕ
  pub retry_after : Option String
  pub text : AppError ⊎ String

-- An error of the transport, and whether it is one of connecting or of time.
pub record SendError : Type 0 where
  pub error : AppError
  pub is_connection : Bool

-- The result of `claim_catalog_slot`; a slot names its account.
pub data Claim : Type 0 where
  slot : String → Claim
  all_busy unavailable : Claim

-- Accounts are named by their ids.
pub record Services (W : Type 0) : Type 0 where
  pub playback_count : W → ℕ
  pub lease_account_for : List String → LeaseKind → W → W × (AppError ⊎ String)
  pub lease : String → W → W
  pub give_back : String → W → W
  pub claim_catalog_slot : ℕ → W → W × Claim
  pub release_slot : String → W → W
  pub catalog_rate_limit_remaining : W → Option ℕ
  pub rate_limit_remaining : String → W → Option ℕ
  pub pause_account : String → Option String → W → W × ℕ
  pub retry_after_secs : Option String → W → ℕ
  pub mark_account_error : String → String → W → W
  pub confirm_full : String → W → W
  pub note_traffic_preview : String → W → W
  pub working_client_for : String → W → W × Option AppError
  pub note_success_for : String → W → W
  pub note_failure_for : String → W → W
  pub get_token : String → W → W × (AppError ⊎ String)
  pub refresh_after_unauthorized : String → String → W → W × (AppError ⊎ String)
  pub reject_refreshed_token : String → String → W → W
  pub alert_403 : String → W → W
  pub alert_all_down : W → W
  pub user_id : String → W → Option String
  pub country : String → W → Option String
  pub set_country : String → Option String → W → W
  pub persist_refresh_state : String → W → W
  pub now : W → ℕ
  pub working_client : W → W × Option AppError
  pub note_success : W → W
  pub note_failure : W → W
  pub static_send : W → W × (SendError ⊎ Response)
  pub send : String → String → W → W × (SendError ⊎ Response)
  -- `send` under a timeout, whose end is `none`.
  pub timed_send : String → String → W → W × (Option SendError ⊎ Response)

-- What the client reads of a JSON body, and its text for one that cannot be read.
pub record Json (Value : Type 0) : Type 0 where
  pub from_str : String → Option Value
  pub asset_presentation : Value → Option String
  pub track_presentation : Value → Option String
  pub parse_failure : String → String
  -- `userId`, a number or a text, and `countryCode` of a session.
  pub session_user : Value → Option String
  pub session_country : Value → Option String

-- What the client did, the latest first: it took and gave back a lease, sent a request with a token,
-- paused an account after a 429, or noted what an answer shows of a subscription.
pub data Call : Type 0 where
  leased released : (id : String) → Call
  sent : (id token : String) → Option Response → Call
  paused : (id : String) → ℕ → Call
  full_confirmed preview_noted : (id : String) → Call
  -- With the static token of the catalog, which is no account.
  static_sent : Option Response → Call

pub record Session (W : Type 0) : Type 0 where
  pub world : W
  pub calls : List Call

-- `str::contains`
abbrev contains : String → String → Bool
contains String.[] part = starts_with "" part
contains (String.◌∷◌ c s) part = starts_with (String.◌∷◌ c s) part || contains s part

abbrev pub is_text : String → Option String → Bool
is_text t none = false
is_text t (some s) = str_eq s t

module _ {W : Type 0} (api : Services W) where
  -- `send`, with what the proxies learn from it.
  unfoldable pub deliver : String → String → Session W → Session W × (AppError ⊎ Response)
  deliver id token s =
      let (w, answer) = api.send id token s.world in
      elim answer [
        | inl e ↦ (
          record {
            world = if e.is_connection then api.note_failure_for id w else w;
            calls = sent id token none ∷ s.calls;
          },
          inl e.error,
        )
        | inr r ↦ (
          record { world = api.note_success_for id w; calls = sent id token (some r) ∷ s.calls },
          inr r,
        )
      ]

  -- `send` of the subscription lookup and the probe. An error of the transport is given a text.
  unfoldable pub deliver_timed : (String → String → Session W → Session W × (AppError ⊎ Response))
  deliver_timed id token s =
      let (w, answer) = api.timed_send id token s.world in
      elim answer [
        | inl lost ↦ elim lost [
          | none ↦ (
            record { world = api.note_failure_for id w; calls = sent id token none ∷ s.calls },
            inl timeout,
          )
          | some e ↦ (
            record {
              world = if e.is_connection then api.note_failure_for id w else w;
              calls = sent id token none ∷ s.calls;
            },
            inl (bad_gateway "Network error reaching Tidal"),
          )
        ]
        | inr r ↦ (
          record { world = api.note_success_for id w; calls = sent id token (some r) ∷ s.calls },
          inr r,
        )
      ]

  -- The pause after a 429.
  unfoldable pub pause : String → Response → String → Session W → Session W × ℕ
  pause id r reason s =
      let (w, seconds) = api.pause_account id r.retry_after s.world in
      (
        record { world = api.mark_account_error id reason w; calls = paused id seconds ∷ s.calls },
        seconds,
      )

  -- `alert_if_all_down`
  unfoldable pub alert_if_all_down : AppError → W → W
  alert_if_all_down (service_unavailable text) w =
      if contains text "All accounts" then api.alert_all_down w else w
  alert_if_all_down other w = w
