-- ===== src/AppError.antt =====
-- src/error.rs: the errors of the API and the HTTP answers that they become. A status is a number.
pub mod Replies
use text.Mathlib.Text.{starts_with}
use hifi_api_rust.Base.{
  ℕ, ◌<◌, Bool, true, false, ◌&&◌, List, [], ◌∷◌, Option, none, some, String, ltb, leb, any, max,
  if◌then◌else◌,
}

pub data AppError : Type 0 where
  not_found bad_request unauthorized : String → AppError
  upstream_error : ℕ → String → AppError
  rate_limited : ℕ → AppError
  timeout : AppError
  bad_gateway preview_only service_unavailable : String → AppError
  service_unavailable_retry accounts_busy : String → ℕ → AppError
  internal : String → AppError

-- `StatusCode::is_client_error`
abbrev pub is_client_error : ℕ → Bool
is_client_error s = leb 400 s && ltb s 500

-- `AppError::status`
unfoldable pub status : AppError → ℕ
status (not_found d) = 404
status (bad_request d) = 400
status (unauthorized d) = 401
status (upstream_error s d) = if is_client_error s then s else 502
status (rate_limited secs) = 429
status timeout = 504
status (bad_gateway d) = 502
status (preview_only d) = 403
status (service_unavailable d) = 503
status (service_unavailable_retry d secs) = 503
status (accounts_busy d secs) = 429
status (internal d) = 500

-- `AppError::after_failover`: a busy pool wins over the failure of an earlier account.
unfoldable pub after_failover : AppError → Option AppError → AppError
after_failover (accounts_busy d secs) previous = accounts_busy d secs
after_failover (internal d) previous = elim previous [ none ↦ internal d | some e ↦ e ]
after_failover other previous = elim previous [ none ↦ other | some e ↦ e ]

abbrev pub all_busy_text : String
all_busy_text = "All playback accounts are busy"

abbrev pub queue_full_text : String
queue_full_text = "Playback queue full"

abbrev pub catalog_busy_text : String
catalog_busy_text = "Catalog accounts are at their concurrent request limit"

-- `is_accounts_busy`
unfoldable pub is_accounts_busy : String → Bool
is_accounts_busy detail =
    any (λ start. starts_with detail start)
      (all_busy_text ∷ queue_full_text ∷ catalog_busy_text ∷ [])

-- The parts of the HTTP answer: status, `detail`, `code`, and the `Retry-After` header.
pub record ErrorReply : Type 0 where
  pub code : ℕ
  pub detail : String
  pub tag : Option String
  pub retry_after : Option ℕ

abbrev plain : ℕ → String → ErrorReply
plain code detail = record { code = code; detail = detail; tag = none; retry_after = none }

-- `AppError::into_response`
unfoldable pub into_response : AppError → ErrorReply
unfolding status
into_response (not_found d) = plain (status (not_found d)) d
into_response (bad_request d) = plain (status (bad_request d)) d
into_response (unauthorized d) = plain (status (unauthorized d)) d
into_response (upstream_error s d) = plain (status (upstream_error s d)) d
into_response (bad_gateway d) = plain (status (bad_gateway d)) d
into_response (service_unavailable d) = plain (status (service_unavailable d)) d
into_response (internal d) = plain (status (internal d)) d
into_response (rate_limited secs) =
    record (plain (status (rate_limited secs)) "Tidal rate limited the account") {
      retry_after = some secs;
    }
into_response timeout = plain (status timeout) "Upstream timeout"
into_response (service_unavailable_retry d secs) =
    record (plain (status (service_unavailable_retry d secs)) d) {
      retry_after = if ltb 0 secs then some secs else none;
    }
into_response (preview_only d) = record (plain (status (preview_only d)) d) {
  tag = some "preview_only";
}
into_response (accounts_busy d secs) = record {
  code = status (accounts_busy d secs);
  detail = d;
  tag = some "accounts_busy";
  retry_after = some (max secs 1);
}
