-- ===== src/Tidal/Probe.antt =====
-- The subscription lookup and the FULL/PREVIEW probe of src/tidal_client.rs. The loops of the source
-- end by themselves, so `fuel` only bounds them: a result is `none` when it runs out.
use Prim.Native.String.{String}
use hifi_api_rust.Base.{
  ℕ, zero, suc, ◌+◌, Bool, true, false, not, ◌&&◌, List, [], ◌∷◌, Option, none, some, ◌==◌,
  if◌then◌else◌, ◌⊎◌, inl, inr, length,
}
use hifi_api_rust.AppError.{AppError, upstream_error, rate_limited}
use hifi_api_rust.Tidal.Services.{Services, Json, Response, Session, is_text, deliver_timed, pause}

-- `response.json()`
unfoldable pub json_body : {Value : Type 0} → Json Value → Response → Option Value
json_body json r = elim r.text [ inl e ↦ none | inr text ↦ json.from_str text ]

-- The first part of the answer of a probe, with its reason where it varies.
pub data Verdict : Type 0 where
  premium preview_only : Verdict
  unknown error : String → Verdict

-- What the loop over one track ends with: a verdict, or a PREVIEW, which leads to the next track.
pub data Probed : Type 0 where
  verdict : Verdict → Probed
  preview : (token : String) → Probed

abbrev pub probe_track_ids : List ℕ
probe_track_ids = 427520487 ∷ 39249713 ∷ 58990511 ∷ 144371283 ∷ []

module _ {W Value : Type 0} (api : Services W) (json : Json Value) where
  abbrev pub world_of : W → Session W → Session W
  world_of w s = record s { world = w }

  -- `subscription_get`; it gives back the token that it ends with.
  unfoldable pub subscription_get :
      (fuel : ℕ)
      → (retried_unauthorized : Bool) → (id token : String) → Session W
      → Session W × Option (String × (AppError ⊎ Value))
  unfolding deliver_timed pause json_body
  subscription_get zero retried_unauthorized id token s = (s, none)
  subscription_get (suc fuel) retried_unauthorized id token s =
      elim (api.rate_limit_remaining id s.world) [
        | some seconds ↦ (s, some (token, inl (rate_limited seconds)))
        | none ↦
            let (t, answer) = deliver_timed api id token s in
            elim answer [
              | inl e ↦ (t, some (token, inl e))
              | inr r ↦ elim (r.status == 401 && not retried_unauthorized) [
                | true ↦
                    let (w, fresh) = api.refresh_after_unauthorized id token t.world in
                    elim fresh [
                      | inl e ↦ (world_of w t, some (token, inl e))
                      | inr new ↦ subscription_get fuel true id new (world_of w t)
                    ]
                | false ↦
                    if r.status == 200
                    then (
                      t,
                      some (
                        token,
                        elim (json_body json r) [
                          | none ↦
                              inl (upstream_error 502 "Invalid subscription response from Tidal")
                          | some value ↦ inr value
                        ],
                      ),
                    )
                    else if r.status == 429
                    then (let (u, seconds) = pause api id r "Tidal subscription check HTTP 429" t in
                        (u, some (token, inl (rate_limited seconds))))
                    else (
                      (if r.status == 401
                          then world_of (api.reject_refreshed_token id token t.world) t
                          else t),
                      some (token, inl (upstream_error 502 "Tidal HTTP error")),
                    )
              ]
            ]
      ]

  -- What follows an answer that is no first 401.
  unfoldable pub judge : (id token : String) → Response → Session W → Session W × Option Probed
  unfolding json_body pause
  judge id token r s =
      if r.status == 200
      then elim (json_body json r) [
        | none ↦ (s, some (verdict (unknown "Invalid playback response")))
        | some value ↦
            if is_text "FULL" (json.asset_presentation value)
            then (s, some (verdict premium))
            else if is_text "PREVIEW" (json.asset_presentation value)
            then (s, some (preview token))
            else (s, some (verdict (unknown "Playback response has no clear presentation")))
      ]
      else if r.status == 401
      then (
        world_of (api.reject_refreshed_token id token s.world) s,
        some (verdict (unknown "Tidal returned 401 after token refresh")),
      )
      else if r.status == 403
      then (s, some (verdict (unknown "Tidal returned 403; account may be restricted")))
      else if r.status == 429
      then (
        (pause api id r "Tidal probe HTTP 429" s).0,
        some (verdict (unknown "Tidal throttled the probe")),
      )
      else (s, some (verdict (unknown "Tidal HTTP error")))

  -- The loop over one track of `probe_account_premium_at`.
  unfoldable pub probe_track :
      (fuel : ℕ)
      → (retried_unauthorized : Bool) → (id token : String) → Session W
      → Session W × Option Probed
  unfolding deliver_timed judge
  probe_track zero retried_unauthorized id token s = (s, none)
  probe_track (suc fuel) retried_unauthorized id token s =
      elim (api.rate_limit_remaining id s.world) [
        | some seconds ↦ (s, some (verdict (unknown "Account is rate limited")))
        | none ↦
            let (w, client) = api.working_client_for id s.world in
            elim client [
              | some e ↦
                  (world_of w s, some (verdict (unknown "No working egress for this account")))
              | none ↦
                  let (t, answer) = deliver_timed api id token (world_of w s) in
                  elim answer [
                    | inl e ↦ (t, some (verdict (unknown "Network error reaching Tidal")))
                    | inr r ↦ elim (r.status == 401 && not retried_unauthorized) [
                      | true ↦
                          let (v, fresh) = api.refresh_after_unauthorized id token t.world in
                          elim fresh [
                            | inl e ↦ (
                              world_of v t,
                              some
                                  (verdict (unknown "Tidal returned 401 and token refresh failed")),
                            )
                            | inr new ↦ probe_track fuel true id new (world_of v t)
                          ]
                      | false ↦ judge id token r t
                    ]
                  ]
            ]
      ]

  -- The loop over the tracks. Its inner loop sends at most two requests.
  unfoldable pub probe_tracks :
      List ℕ → (previews : ℕ) → (id token : String) → Session W → Session W × Option Verdict
  unfolding probe_track
  probe_tracks [] previews id token s = (
    s,
    some (
        if previews == length probe_track_ids
        then preview_only
        else unknown "Probe did not get a conclusive response"),
  )
  probe_tracks (track_id ∷ tracks) previews id token s =
      let (t, end) = probe_track 2 false id token s in
      elim end [
        | none ↦ (t, none)
        | some p ↦ elim p [
          | verdict v ↦ (t, some v)
          | preview next ↦ probe_tracks tracks (previews + 1) id next t
        ]
      ]

  -- `probe_account_premium_at`
  unfoldable pub probe_account_premium : String → Session W → Session W × Option Verdict
  unfolding probe_tracks
  probe_account_premium id s = elim (api.rate_limit_remaining id s.world) [
    | some seconds ↦ (s, some (unknown "Account is rate limited"))
    | none ↦
        let (w, client) = api.working_client_for id s.world in
        elim client [
          | some e ↦ (world_of w s, some (unknown "No working egress for this account"))
          | none ↦
              let (v, got) = api.get_token id w in
              elim got [
                | inl e ↦ (world_of v s, some (error "Token unavailable"))
                | inr token ↦ probe_tracks probe_track_ids 0 id token (world_of v s)
              ]
        ]
  ]
