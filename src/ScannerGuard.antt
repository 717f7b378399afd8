-- ===== src/ScannerGuard.antt =====
-- src/scanner_guard.rs: requests to known scanner paths ban their address for a while.
pub mod Paths
pub mod Safety
use hifi_api_rust.Base.{ℕ, ◌*◌, List, Option, none, some, if◌then◌else◌}
use hifi_api_rust.Lockout.{Policy, IpAddr, GuardState, second, cleanup, lift_ban, make_room, count}
use Paths.{is_scanner_path}

abbrev pub probe_policy : Policy
probe_policy = record { window = 60 * second; ban = 15 * 60 * second; limit = 3; max_ips = 50_000 }

-- `ScannerGuard::check`. `decode` is `percent_decode_str(..).decode_utf8_lossy()`.
unfoldable pub check : (List ℕ → List ℕ) → IpAddr → List ℕ → ℕ → GuardState → GuardState × Option ℕ
check decode ip path now g =
    let (h, left) = lift_ban ip now (cleanup probe_policy now g) in
    elim left [
      | some s ↦ (h, some s)
      | none ↦
          if is_scanner_path decode path
          then count probe_policy ip now (make_room probe_policy ip h)
          else (h, none)
    ]
