-- ===== src/Tokens/Cycle.antt =====
-- The requests of a token refresh in src/token_manager.rs: `request_token_once` and
-- `request_token_cycle`. Tidal's answers are an argument, and so are the texts of errors and the
-- headers that are read as seconds.
use text.Mathlib.Text.{◌==◌ as str_eq}
use hifi_api_rust.Base.{
  ℕ, zero, suc, ◌+◌, ◌-◌, ◌*◌, ◌/◌, Bool, true, false, not, ◌&&◌, ◌||◌, Option, none, some, String,
  ltb, leb, ◌==◌, if◌then◌else◌, min, ◌⊎◌, inl, inr,
}
use hifi_api_rust.AppError.{
  AppError, unauthorized, upstream_error, rate_limited, service_unavailable,
  service_unavailable_retry, internal,
}
use hifi_api_rust.Accounts.State.{AccountState, set_country, nonempty}
use hifi_api_rust.Accounts.RateLimit.{pause_account, retry_after_secs, i64_max}

-- What is read of an answer; `expires_in` is a number of the JSON body that fits an `i64`.
pub record AuthAnswer : Type 0 where
  pub status : ℕ
  pub retry_after : Option String
  pub oauth_error : String
  pub description : String
  pub access_token : Option String
  pub expires_in : Option ℕ
  pub rotated : Option String
  pub country : Option String

-- The end of one request, and what storing the credentials would answer.
pub record Exchange : Type 0 where
  pub now : ℕ
  -- An error of the transport, and whether it is one of connecting or of time.
  pub sent : AuthAnswer ⊎ (AppError × Bool)
  pub stored : Option AppError

pub record TokenAttemptFailure : Type 0 where
  pub error : AppError
  pub retryable : Bool
  pub retry_after : ℕ
  pub forbidden : Bool

pub data Once : Type 0 where
  granted : String → Once
  refused : TokenAttemptFailure → Once

abbrev pub non_retryable : AppError → TokenAttemptFailure
non_retryable e = record { error = e; retryable = false; retry_after = 0; forbidden = false }

abbrev pub is_success : ℕ → Bool
is_success s = leb 200 s && ltb s 300

abbrev pub is_retryable : ℕ → Bool
is_retryable s =
    s == 403 || s == 408 || s == 425 || s == 429 || s == 500 || s == 502 || s == 503 || s == 504

abbrev pub is_credential_error : AuthAnswer → Bool
is_credential_error r =
    (r.status == 400 || r.status == 401)
    && (str_eq r.oauth_error "invalid_grant" || str_eq r.oauth_error "invalid_client")

abbrev pub positive : Option ℕ → Option ℕ
positive none = none
positive (some n) = if ltb 0 n then some n else none

-- The end of a token's life, a little before Tidal's.
unfoldable pub expires_at : ℕ → ℕ → ℕ
expires_at now expires_in = min (now + expires_in) i64_max - min 60 (expires_in / 10)

-- The credentials are stored with the account: `store_refreshed_credentials` in memory.
unfoldable pub install : ℕ → String → ℕ → Option String → AccountState → AccountState
install now token expires rotated a = record a {
  refresh_token = elim (nonempty rotated) [ none ↦ a.refresh_token | some r ↦ r ];
  access_token = some token;
  token_expires_at = expires;
  updated_at = now;
}

-- A failed attempt: after a 403 the next one uses the other form.
unfoldable pub note_failure : TokenAttemptFailure → Bool → AccountState → AccountState
note_failure f use_basic a =
    if f.forbidden
    then record a {
      auth_forbidden_streak = a.auth_forbidden_streak + 1;
      auth_use_basic = not use_basic;
    }
    else record a { auth_forbidden_streak = 0 }

abbrev pub gives_up : TokenAttemptFailure → Bool
gives_up f = not f.retryable || ltb 20_000 (f.retry_after * 1_000)

abbrev pub auth_initial_attempts : ℕ
auth_initial_attempts = 4

abbrev pub auth_forbidden_rotate_threshold : ℕ
auth_forbidden_rotate_threshold = 4

-- What the cycle asks of the proxies: whether they are on, whether a refresh rotates them, and
-- whether the account has a client.
pub record Proxies : Type 0 where
  pub enabled : Bool
  pub rotate_on_refresh : Bool
  pub client : Option AppError

-- Whether the account leaves its proxy first.
unfoldable pub rotates : Proxies → AccountState → Bool
rotates p a =
    p.rotate_on_refresh || p.enabled && leb auth_forbidden_rotate_threshold a.auth_forbidden_streak

module _ (parse : String → Option ℕ) (clean : String → Option String)
    (describe : ℕ → String → String → String) (denied : ℕ → String → String) where
  -- An answer that is neither a success nor a 429.
  unfoldable pub refusal : AuthAnswer → TokenAttemptFailure
  unfolding retry_after_secs
  refusal r =
      if is_credential_error r
      then non_retryable (unauthorized (denied r.status r.oauth_error))
      else (let message = describe r.status r.oauth_error r.description in
          elim r.retry_after [
            | none ↦ record {
              error = upstream_error r.status message;
              retryable = is_retryable r.status;
              retry_after = 0;
              forbidden = r.status == 403;
            }
            | some value ↦
                let secs = retry_after_secs parse (some value) in
                record {
                  error = service_unavailable_retry message secs;
                  retryable = is_retryable r.status;
                  retry_after = secs;
                  forbidden = r.status == 403;
                }
          ])

  unfoldable pub accept : ℕ → AuthAnswer → Option AppError → AccountState → AccountState × Once
  unfolding expires_at install
  accept now r stored a = elim (nonempty r.access_token) [
    | none ↦ (a, refused (non_retryable (internal "Empty access_token in auth response")))
    | some token ↦ elim (positive r.expires_in) [
      | none ↦ (a, refused (non_retryable (internal "Invalid expires_in in auth response")))
      | some secs ↦
          let b = set_country clean r.country a in
          elim stored [
            | some e ↦ (b, refused (non_retryable e))
            | none ↦ (install now token (expires_at now secs) r.rotated b, granted token)
          ]
    ]
  ]

  -- `request_token_once`
  unfoldable pub request_once : Exchange → AccountState → AccountState × Once
  unfolding refusal accept pause_account
  request_once x a = elim x.sent [
    | inr (e, retryable) ↦ (
      a,
      refused (record { error = e; retryable = retryable; retry_after = 0; forbidden = false }),
    )
    | inl r ↦
        if r.status == 429
        then (let (b, seconds) = pause_account parse x.now r.retry_after a in
            (
              b,
              refused (record {
                error = rate_limited seconds;
                retryable = true;
                retry_after = seconds;
                forbidden = false;
              }),
            ))
        else (if is_success r.status then accept x.now r x.stored a else (a, refused (refusal r)))
  ]

  -- The loop of `request_token_cycle`: the attempts that are left, the number of the next one and its
  -- form. `tidal` answers an attempt in either form.
  unfoldable pub attempts_from :
      (ℕ → Bool → Exchange) → ℕ → ℕ → Bool → AccountState → AccountState × (AppError ⊎ String)
  unfolding request_once note_failure
  attempts_from tidal zero attempt use_basic a =
      (a, inl (service_unavailable "No token refresh attempt completed"))
  attempts_from tidal (suc left) attempt use_basic a =
      let (b, once) = request_once (tidal attempt use_basic) a in
      elim once [
        | granted token ↦
            (record b { auth_use_basic = use_basic; auth_forbidden_streak = 0 }, inr token)
        | refused f ↦
            let c = note_failure f use_basic b in
            elim (gives_up f || left == 0) [
              | true ↦ (c, inl f.error)
              | false ↦
                  attempts_from tidal left (attempt + 1)
                    (if f.forbidden then not use_basic else use_basic) c
            ]
      ]

  -- `request_token_cycle`
  unfoldable pub request_cycle :
      Proxies → (ℕ → Bool → Exchange) → AccountState → AccountState × (AppError ⊎ String)
  unfolding rotates attempts_from
  request_cycle p tidal a =
      let b = if rotates p a then record a { auth_forbidden_streak = 0 } else a in
      elim p.client [
        | some e ↦ (b, inl e)
        | none ↦
            attempts_from tidal (if b.heal_failures == 0 then auth_initial_attempts else 1) 0
              b.auth_use_basic b
      ]
