-- ===== src/ApiKeys/Enforce.antt =====
-- `enforce_api_key` of src/api_keys.rs: which requests may pass.
use hifi_api_rust.Base.{ℕ, Bool, not, ◌&&◌, ◌||◌, List, [], Option, none, some, ◌==◌, if◌then◌else◌}
use hifi_api_rust.Base.Bytes.{codes, same, starts_with}
use hifi_api_rust.Lockout.{IpAddr, GuardState}
use hifi_api_rust.AdminAuthGuard
use hifi_api_rust.ApiKeys.Keys.{
  Bytes, ApiKeyState, accepted, invalid, exhausted, active_count, check_and_consume,
}

-- What the middleware reads of a request. A header that is missing or no text is empty for the
-- owner's key, and `none` for an API key.
pub record KeyRequest : Type 0 where
  pub path : Bytes
  pub admin_key : Bytes
  pub api_key : Option Bytes
  pub ip : IpAddr
  pub now : ℕ

pub record Gate : Type 0 where
  pub keys : List ApiKeyState
  pub admin_auth_guard : GuardState

pub data Decision : Type 0 where
  pass : Decision
  -- 429, with the seconds to wait.
  locked : ℕ → Decision
  unauthorized : Decision

abbrev pub is_exempt : Bytes → Bool
is_exempt path =
    same path (codes "/") || same path (codes "/health") || starts_with (codes "/admin") path

-- The end of the middleware.
unfoldable pub enforce_key : (Bytes → Bytes) → Option Bytes → Gate → Gate × Decision
enforce_key hash_key none g = (g, unauthorized)
enforce_key hash_key (some raw) g =
    let (keys, result) = check_and_consume (hash_key raw) g.keys in
    (
      record g { keys = keys },
      elim result [ accepted label ↦ pass | invalid ↦ unauthorized | exhausted ↦ unauthorized ],
    )

-- The owner's key; `config_key` is the configured one.
unfoldable pub enforce_owner : (Bytes → Bytes) → Bytes → KeyRequest → Gate → Gate × Decision
enforce_owner hash_key config_key r g =
    let (checked, left) = AdminAuthGuard.check r.ip r.now g.admin_auth_guard in
    elim left [
      | some s ↦ (record g { admin_auth_guard = checked }, locked s)
      | none ↦
          if same r.admin_key config_key
          then (record g { admin_auth_guard = AdminAuthGuard.clear r.ip checked }, pass)
          else (let (after, wait) = AdminAuthGuard.failed r.ip r.now checked in
              elim wait [
                | some s ↦ (record g { admin_auth_guard = after }, locked s)
                | none ↦ enforce_key hash_key r.api_key (record g { admin_auth_guard = after })
              ])
    ]

abbrev pub is_empty : Bytes → Bool
is_empty b = same b []

-- `enforce_api_key`
unfoldable pub enforce_api_key : (Bytes → Bytes) → Bytes → KeyRequest → Gate → Gate × Decision
enforce_api_key hash_key config_key r g =
    if is_exempt r.path
    then (g, pass)
    else (if active_count g.keys == 0
        then (g, pass)
        else (if not (is_empty config_key) && not (is_empty r.admin_key)
            then enforce_owner hash_key config_key r g
            else enforce_key hash_key r.api_key g))
