-- ===== src/Examples/Errors.antt =====
-- src/error.rs at concrete inputs.
use hifi_api_rust.Base.{◌≡◌, refl}
use hifi_api_rust.AppError.{accounts_busy, into_response}

busy_status : (into_response (accounts_busy "" 0)).code ≡ 429
unfolding into_response
busy_status = refl
