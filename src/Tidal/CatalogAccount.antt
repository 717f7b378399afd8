-- ===== src/Tidal/CatalogAccount.antt =====
-- The catalog requests of src/tidal_client.rs with the static token, and on one catalog account.
use Prim.Native.String.{String}
use hifi_api_rust.Base.{
  ℕ, zero, suc, ◌+◌, ◌-◌, true, false, ◌&&◌, ◌||◌, ◌∷◌, none, some, leb, ltb, ◌==◌, min, max,
  if◌then◌else◌, ◌⊎◌, inl, inr,
}
use hifi_api_rust.AppError.{AppError, unauthorized, upstream_error, rate_limited}
use hifi_api_rust.Accounts.RateLimit.{i64_max}
use hifi_api_rust.Tokens.Cycle.{is_success}
use hifi_api_rust.Tidal.Services.{Services, Json, Response, Session, static_sent, deliver, pause}

module _ {W Value : Type 0} (api : Services W) (json : Json Value) where
  abbrev pub at : W → Session W → Session W
  at w s = record s { world = w }

  unfoldable pub read_body : Response → AppError ⊎ Value
  read_body r = elim r.text [
    | inl e ↦ inl e
    | inr body ↦ elim (json.from_str body) [
      | none ↦ inl (upstream_error r.status (json.parse_failure body))
      | some value ↦ inr value
    ]
  ]

  -- `catalog_static_get`; `until` is `catalog_rate_limited_until`.
  unfoldable pub catalog_static_get : ℕ → Session W → Session W × (ℕ × (AppError ⊎ Value))
  unfolding read_body
  catalog_static_get until s =
      let remaining = until - api.now s.world in
      if ltb 0 remaining
      then (s, (until, inl (rate_limited remaining)))
      else (let (w, client) = api.working_client s.world in
          elim client [
            | some e ↦ (at w s, (until, inl e))
            | none ↦
                let (v, answer) = api.static_send w in
                elim answer [
                  | inl e ↦ (
                    record {
                      world = if e.is_connection then api.note_failure v else v;
                      calls = static_sent none ∷ s.calls;
                    },
                    (until, inl e.error),
                  )
                  | inr r ↦
                      let t : Session W = record {
                        world = api.note_success v;
                        calls = static_sent (some r) ∷ s.calls;
                      } in
                      if r.status == 429
                      then (let seconds = api.retry_after_secs r.retry_after t.world in
                          (
                            t,
                            (
                              max until (min (api.now t.world + min seconds i64_max) i64_max),
                              inl (rate_limited seconds),
                            ),
                          ))
                      else if is_success r.status
                      then (t, (until, read_body r))
                      else (
                        t,
                        (until, inl (upstream_error r.status "Catalog token request failed")),
                      )
                ]
          ])

  -- The loop of `catalog_account_get`, with the attempts that are left.
  unfoldable pub catalog_attempts :
      (left attempt : ℕ) → (id token : String) → Session W → Session W × (AppError ⊎ Value)
  unfolding read_body deliver pause
  catalog_attempts zero attempt id token s = (s, inl (unauthorized "Catalog account unauthorized"))
  catalog_attempts (suc left) attempt id token s = elim (api.rate_limit_remaining id s.world) [
    | some seconds ↦ (s, inl (rate_limited seconds))
    | none ↦
        let (w, client) = api.working_client_for id s.world in
        elim client [
          | some e ↦ (at w s, inl e)
          | none ↦
              let (t, answer) = deliver api id token (at w s) in
              elim answer [
                | inl e ↦ (t, inl e)
                | inr r ↦ elim (r.status == 429) [
                  | true ↦
                      let (u, seconds) = pause api id r "Tidal HTTP 429" t in
                      (u, inl (rate_limited seconds))
                  | false ↦ elim (r.status == 401 && ltb 0 left) [
                    | true ↦
                        let (v, fresh) = api.refresh_after_unauthorized id token t.world in
                        elim fresh [
                          | inl e ↦ (at v t, inl e)
                          | inr new ↦ catalog_attempts left (attempt + 1) id new (at v t)
                        ]
                    | false ↦
                        let u =
                          if r.status == 401 && ltb 0 attempt
                          then at (api.reject_refreshed_token id token t.world) t
                          else t in
                        elim (is_success r.status) [
                          | true ↦ (u, read_body r)
                          | false ↦ elim (ltb 0 left && (r.status == 403 || leb 500 r.status)) [
                            | true ↦ catalog_attempts left (attempt + 1) id token u
                            | false ↦
                                (u, inl (upstream_error r.status "Catalog account request failed"))
                          ]
                        ]
                  ]
                ]
              ]
        ]
  ]

  -- `catalog_account_get`
  unfoldable pub catalog_account_get :
      (requests_per_account : ℕ) → String → Session W → Session W × (AppError ⊎ Value)
  unfolding catalog_attempts
  catalog_account_get requests_per_account id s = elim (api.rate_limit_remaining id s.world) [
    | some seconds ↦ (s, inl (rate_limited seconds))
    | none ↦
        let (w, client) = api.working_client_for id s.world in
        elim client [
          | some e ↦ (at w s, inl e)
          | none ↦
              let (v, got) = api.get_token id w in
              elim got [
                | inl e ↦ (at v s, inl e)
                | inr token ↦ catalog_attempts (max requests_per_account 1) 0 id token (at v s)
              ]
        ]
  ]
