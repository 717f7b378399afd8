-- ===== src/Tidal/Account.antt =====
-- The subscription lookup of an account in src/tidal_client.rs. Its two requests differ in their URLs,
-- and the country only enters the query of the second.
use Prim.Native.String.{String}
use hifi_api_rust.Base.{
  ℕ, Bool, false, not, List, [], ◌∷◌, Option, none, some, any, ◌||◌, ltb, if◌then◌else◌, ◌⊎◌, inl,
  inr,
}
use hifi_api_rust.Base.Bytes.{codes}
use hifi_api_rust.AppError.{AppError, upstream_error}
use hifi_api_rust.Tidal.Services.{Services, Json, Session}
use hifi_api_rust.Tidal.Probe.{world_of, subscription_get}

-- `!id.is_empty() && id.chars().all(|c| c.is_ascii_digit())`
abbrev pub is_user_id : List ℕ → Bool
is_user_id [] = false
is_user_id (c ∷ cs) = not (any (λ d. ltb d 48 || ltb 57 d) (c ∷ cs))

module _ {W Value : Type 0} (api : Services W) (json : Json Value) where
  -- The user id that is known together with a country.
  unfoldable pub known_user : String → W → Option String
  known_user id w = elim (api.user_id id w) [
    | none ↦ none
    | some user ↦ elim (api.country id w) [
      | none ↦ none
      | some country ↦ if is_user_id (codes user) then some user else none
    ]
  ]

  -- The token that follows, and the user id, from a session if it is not known.
  unfoldable pub find_user :
      (id token : String) → Session W → Session W × Option (AppError ⊎ (String × String))
  unfolding known_user subscription_get
  find_user id token s = elim (known_user id s.world) [
    | some user ↦ (s, some (inr (token, user)))
    | none ↦
        let (t, end) = subscription_get api json 2 false id token s in
        elim end [
          | none ↦ (t, none)
          | some p ↦ elim p.1 [
            | inl e ↦ (t, some (inl e))
            | inr session ↦ elim (json.session_user session) [
              | none ↦ (t, some (inl (upstream_error 502 "Tidal session has no user id")))
              | some user ↦ (
                world_of api json
                    (api.persist_refresh_state id
                      (api.set_country id (json.session_country session) t.world))
                    t,
                some (inr (p.0, user)),
              )
            ]
          ]
        ]
  ]

  -- The subscription of the user.
  unfoldable pub user_subscription :
      (id token user : String) → Session W → Session W × Option (AppError ⊎ (String × Value))
  unfolding subscription_get
  user_subscription id token user s =
      let (t, end) = subscription_get api json 2 false id token s in
      elim end [
        | none ↦ (t, none)
        | some p ↦ elim p.1 [ inl e ↦ (t, some (inl e)) | inr body ↦ (t, some (inr (user, body))) ]
      ]

  -- `account_subscription_at`
  unfoldable pub account_subscription :
      String → Session W → Session W × Option (AppError ⊎ (String × Value))
  unfolding find_user user_subscription
  account_subscription id s =
      let (w, client) = api.working_client_for id s.world in
      elim client [
        | some e ↦ (world_of api json w s, some (inl e))
        | none ↦
            let (v, got) = api.get_token id w in
            elim got [
              | inl e ↦ (world_of api json v s, some (inl e))
              | inr token ↦
                  let (t, found) = find_user id token (world_of api json v s) in
                  elim found [
                    | none ↦ (t, none)
                    | some out ↦ elim out [
                      | inl e ↦ (t, some (inl e))
                      | inr who ↦ user_subscription id who.0 who.1 t
                    ]
                  ]
            ]
      ]
