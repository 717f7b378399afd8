-- ===== src/AdminAuthGuard.antt =====
-- src/admin/auth_guard.rs: wrong admin credentials lock their address out for a while.
pub mod Safety
use hifi_api_rust.Base.{ℕ, ◌*◌, Option, none, some}
use hifi_api_rust.Base.Dict.{remove}
use hifi_api_rust.Lockout.{
  Policy, IpAddr, ip_eq, GuardState, second, cleanup, lift_ban, make_room, count,
}

abbrev pub failure_policy : Policy
failure_policy = record {
  window = 5 * 60 * second;
  ban = 15 * 60 * second;
  limit = 5;
  max_ips = 50_000;
}

-- `AdminAuthGuard::check`: the seconds until an existing lock expires.
unfoldable pub check : IpAddr → ℕ → GuardState → GuardState × Option ℕ
check ip now g = lift_ban ip now g

-- `AdminAuthGuard::failed`
unfoldable pub failed : IpAddr → ℕ → GuardState → GuardState × Option ℕ
failed ip now g =
    let (h, left) = lift_ban ip now (cleanup failure_policy now g) in
    elim left [
      | some s ↦ (h, some s)
      | none ↦ count failure_policy ip now (make_room failure_policy ip h)
    ]

-- `AdminAuthGuard::clear`
unfoldable pub clear : IpAddr → GuardState → GuardState
clear ip g = record g { ips = remove ip_eq ip g.ips }
