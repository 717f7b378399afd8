-- ===== src/Tidal/Fallback.antt =====
-- `RateLimitFallback` of src/tidal_client.rs, and what one request knows while it fails over.
use Prim.Native.String.{String}
use hifi_api_rust.Base.{
  ℕ, ◌+◌, Bool, false, List, [], ◌∷◌, ◌++◌, Option, none, some, ltb, if◌then◌else◌,
}
use hifi_api_rust.AppError.{AppError}
use hifi_api_rust.Tidal.Services.{Session}

abbrev pub rate_limit_fallbacks : ℕ
rate_limit_fallbacks = 2

pub record RateLimitFallback : Type 0 where
  pub first_try : Option ℕ
  pub hits : ℕ

-- `RateLimitFallback::exhausted`
unfoldable pub exhausted : ℕ → RateLimitFallback → Bool
exhausted account_try r = elim r.first_try [
  | none ↦ false
  | some first ↦ ltb (first + rate_limit_fallbacks) account_try
]

-- The state of the loops of `make_request_with_limit`.
pub record Failover (W : Type 0) : Type 0 where
  pub session : Session W
  pub failed_ids : List String
  pub previewed : List String
  pub last_account_error : Option AppError
  pub rate_limits : RateLimitFallback

module _ {W : Type 0} where
  -- `RateLimitFallback::schedule`; an error ends the request.
  unfoldable pub schedule : ℕ → String → AppError → Failover W → Failover W × Option AppError
  schedule account_try id error f =
      let hits = f.rate_limits.hits + 1 in
      if ltb rate_limit_fallbacks hits
      then (record f { rate_limits = record f.rate_limits { hits = hits } }, some error)
      else (
        record f {
          rate_limits = record {
            first_try = elim f.rate_limits.first_try [ none ↦ some account_try | some n ↦ some n ];
            hits = hits;
          };
          failed_ids = f.failed_ids ++ id ∷ [];
          last_account_error = some error;
        },
        none,
      )

  -- The account is left for another one.
  unfoldable pub leave_account : String → AppError → Failover W → Failover W
  leave_account id error f = record f {
    failed_ids = f.failed_ids ++ id ∷ [];
    last_account_error = some error;
  }

  unfoldable pub with_session : Session W → Failover W → Failover W
  with_session s f = record f { session = s }

  unfoldable pub at_world : W → Failover W → Failover W
  at_world w f = record f { session = record f.session { world = w } }
