-- ===== src/Tidal/Request.antt =====
-- `make_request_with_limit` of src/tidal_client.rs: one request, tried on several accounts. The sleep
-- between two attempts on an account is time, which the state outside the client carries.
use Prim.Native.String.{String}
use hifi_api_rust.Base.{
  ℕ, zero, suc, Bool, true, false, ◌&&◌, ◌||◌, List, [], ◌∷◌, ◌++◌, Option, none, some, leb, ltb,
  ◌==◌, if◌then◌else◌, ◌⊎◌, inl, inr,
}
use hifi_api_rust.AppError.{
  AppError, not_found, unauthorized, upstream_error, rate_limited, preview_only,
}
use hifi_api_rust.Accounts.Lease.{LeaseKind, playback, metadata}
use hifi_api_rust.Tokens.Cycle.{is_success}
use hifi_api_rust.Tidal.Services.{
  Services, Json, Response, Session, full_confirmed, preview_noted, is_text, deliver, pause,
}
use hifi_api_rust.Tidal.Fallback.{Failover, schedule, leave_account, with_session, at_world}

-- What follows an answer: another attempt on the account, with whether its token was refreshed; the
-- next account; or the end of the request.
pub data Reaction (W Value : Type 0) : Type 0 where
  retry : Bool → Failover W → Reaction W Value
  conclude : Failover W → Option (AppError ⊎ Value) → Reaction W Value

abbrev pub is_rate_limited : AppError → Bool
is_rate_limited (rate_limited seconds) = true
is_rate_limited e = false

abbrev pub is_preview : {Value : Type 0} → Json Value → Value → Bool
is_preview json v =
    is_text "PREVIEW" (json.asset_presentation v) || is_text "PREVIEW" (json.track_presentation v)

abbrev pub is_full : {Value : Type 0} → Json Value → Value → Bool
is_full json v =
    is_text "FULL" (json.asset_presentation v) || is_text "FULL" (json.track_presentation v)

abbrev pub for_playback : LeaseKind → Bool
for_playback playback = true
for_playback metadata = false

module _ {W Value : Type 0} (api : Services W) (json : Json Value) where
  -- `schedule(...)?` and the next account.
  unfoldable pub give_way :
      ℕ → String → AppError → Failover W → Failover W × Option (AppError ⊎ Value)
  unfolding schedule
  give_way account_try id error f =
      let (g, end) = schedule account_try id error f in
      elim end [ none ↦ (g, none) | some e ↦ (g, some (inl e)) ]

  -- The account is marked, and left for another one.
  unfoldable pub mark_failed :
      String → String → AppError → Failover W → Failover W × Option (AppError ⊎ Value)
  unfolding leave_account at_world
  mark_failed id reason error f =
      (leave_account id error (at_world (api.mark_account_error id reason f.session.world) f), none)

  abbrev pub settled : Failover W × Option (AppError ⊎ Value) → Reaction W Value
  settled (f, end) = conclude f end

  -- A 401: the token is refreshed once, if another attempt is left.
  unfoldable pub rejected :
      (more refreshed : Bool) → ℕ → (id token : String) → Failover W → Reaction W Value
  unfolding give_way mark_failed at_world
  rejected more refreshed account_try id token f =
      if refreshed
      then settled (
          mark_failed id "Tidal 401 unauthorized" (unauthorized "Tidal rejected refreshed token")
            (at_world (api.reject_refreshed_token id token f.session.world) f))
      else (if more
          then (let (w, fresh) = api.refresh_after_unauthorized id token f.session.world in
              elim fresh [
                | inr t ↦ retry true (at_world w f)
                | inl e ↦
                    if is_rate_limited e
                    then settled (give_way account_try id e (at_world w f))
                    else settled (mark_failed id "Tidal 401 unauthorized" e (at_world w f))
              ])
          else settled (
              mark_failed id "Tidal 401 unauthorized"
                (unauthorized
                  "Tidal rejected token; per-account request limit prevented refresh retry")
                f))

  -- A 429 pauses the account.
  unfoldable pub throttled : ℕ → String → Response → Failover W → Reaction W Value
  unfolding give_way with_session pause
  throttled account_try id r f =
      let (s, seconds) = pause api id r "Tidal HTTP 429" f.session in
      settled (give_way account_try id (rate_limited seconds) (with_session s f))

  -- A 403, after the last attempt on the account.
  unfoldable pub forbidden : String → Failover W → Reaction W Value
  unfolding leave_account at_world
  forbidden id f =
      conclude
        (leave_account id (upstream_error 403 "Upstream API error") (
          at_world
            (api.alert_403 id (api.mark_account_error id "Tidal 403 forbidden" f.session.world)) f))
        none

  -- A FULL answer counts against the accounts that answered PREVIEW before.
  unfoldable pub note_previews : List String → Session W → Session W
  note_previews [] s = s
  note_previews (id ∷ ids) s =
      note_previews ids
        (record { world = api.note_traffic_preview id s.world; calls = preview_noted id ∷ s.calls })

  unfoldable pub note_full : LeaseKind → String → Value → Failover W → Failover W
  unfolding note_previews with_session
  note_full kind id value f =
      if is_full json value && for_playback kind
      then with_session
          (note_previews f.previewed (record {
            world = api.confirm_full id f.session.world;
            calls = full_confirmed id ∷ f.session.calls;
          }))
          f
      else f

  -- The body of a successful answer.
  unfoldable pub accept_body :
      LeaseKind → String → Response → Failover W → Failover W × Option (AppError ⊎ Value)
  unfolding note_full leave_account
  accept_body kind id r f = elim r.text [
    | inl e ↦ (f, some (inl e))
    | inr body ↦ elim (json.from_str body) [
      | none ↦ (f, some (inl (upstream_error r.status (json.parse_failure body))))
      | some value ↦
          let g = note_full kind id value f in
          if is_preview json value
          then (
            record (leave_account id (preview_only "Preview only for track") g) {
              previewed = g.previewed ++ id ∷ [];
            },
            none,
          )
          else (g, some (inr value))
    ]
  ]

  -- `match status`; `more` says whether another attempt on the account is left.
  unfoldable pub react :
      (more refreshed : Bool)
      → LeaseKind
      → ℕ
      → (id token : String) → Response
      → Failover W
      → Reaction W Value
  unfolding rejected throttled forbidden mark_failed accept_body
  react more refreshed kind account_try id token r f =
      if r.status == 401
      then rejected more refreshed account_try id token f
      else if r.status == 404
      then conclude f (some (inl (not_found "Resource not found")))
      else if r.status == 429
      then throttled account_try id r f
      else if r.status == 403
      then (if more then retry refreshed f else forbidden id f)
      else if is_success r.status
      then settled (accept_body kind id r f)
      else if more && leb 500 r.status
      then retry refreshed f
      else settled
          (mark_failed id "Tidal HTTP error" (upstream_error r.status "Upstream API error") f)

  -- The attempts on one account that are left.
  unfoldable pub attempts :
      LeaseKind
      → ℕ
      → String
      → (left : ℕ) → (refreshed : Bool) → Failover W
      → Failover W × Option (AppError ⊎ Value)
  unfolding react give_way mark_failed at_world with_session deliver
  attempts kind account_try id zero refreshed f = (f, none)
  attempts kind account_try id (suc left) refreshed f =
      let (w, got) = api.get_token id f.session.world in
      let g = at_world w f in
      elim got [
        | inl e ↦
            if is_rate_limited e
            then give_way account_try id e g
            else mark_failed id "token failure" e g
        | inr token ↦ elim (api.rate_limit_remaining id w) [
          | some seconds ↦ give_way account_try id (rate_limited seconds) g
          | none ↦
              let (v, client) = api.working_client_for id w in
              elim client [
                | some e ↦ (at_world v f, some (inl e))
                | none ↦
                    let (s, answer) = deliver api id token (at_world v f).session in
                    elim answer [
                      | inl e ↦ (with_session s f, some (inl e))
                      | inr r ↦
                          elim (react (ltb 0 left) refreshed kind account_try id token r
                            (with_session s f)) [
                              | retry now_refreshed h ↦
                                  attempts kind account_try id left now_refreshed h
                              | conclude h end ↦ (h, end)
                            ]
                    ]
              ]
        ]
      ]
