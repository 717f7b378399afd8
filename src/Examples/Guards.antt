-- ===== src/Examples/Guards.antt =====
-- src/scanner_guard.rs and src/admin/auth_guard.rs at concrete inputs.
use hifi_api_rust.Base.{ℕ, ◌*◌, ◌≡◌, refl, List, [], ◌∷◌, none, some, arith, true, false, ◌<◌}
use hifi_api_rust.Base.Dict.{get, insert, remove, retain, contains_key}
use hifi_api_rust.Lockout.{
  IpAddr, v4, ip_eq, Policy, GuardState, IpActivity, init, second, cleanup, lift_ban, make_room,
  count, mark, entry, drop_old, is_recent, is_banned,
}
use hifi_api_rust.Lockout.Invariant.{IsValid}
use hifi_api_rust.Lockout.Ban.{HasBan}
use hifi_api_rust.ScannerGuard.{probe_policy}
use hifi_api_rust.ScannerGuard
use hifi_api_rust.ScannerGuard.Paths.{is_scanner_path, segments, split, is_marker, has_var_www}
use hifi_api_rust.Base.Bytes.{codes, to_lower}
use hifi_api_rust.ScannerGuard.Safety.{run, ban-holds, run-IsValid}
use hifi_api_rust.AdminAuthGuard
use hifi_api_rust.AdminAuthGuard.{failure_policy}
use hifi_api_rust.AdminAuthGuard.Safety.{fails, clears, lock-holds, run as run_calls}

-- What a run of the guards computes with.
program : Unit {0}
unfolding ScannerGuard.check AdminAuthGuard.check AdminAuthGuard.failed AdminAuthGuard.clear run
    cleanup lift_ban make_room count mark entry drop_old get insert remove retain contains_key
    is_recent is_banned ip_eq init is_scanner_path segments split to_lower is_marker has_var_www
program = tt

abbrev ip : IpAddr
ip = v4 1

abbrev other : IpAddr
other = v4 2

abbrev plain : List ℕ → List ℕ
plain s = s

-- `recognizes_scanner_paths_without_counting_normal_misses`
recognizes_scanner_paths :
    (is_scanner_path plain (codes "/2019/wp-includes") ≡ true)
    × (is_scanner_path plain (codes "/.env.production") ≡ true)
    × (is_scanner_path plain (codes "/api/.env") ≡ true)
    × (is_scanner_path plain (codes "/var/www") ≡ true)
    × (is_scanner_path plain (codes "/WP-LOGIN.PHP") ≡ true)
    × (is_scanner_path plain (codes "/admin/settings") ≡ false)
    × (is_scanner_path plain (codes "/track/123") ≡ false)
unfolding program
recognizes_scanner_paths = (refl, refl, refl, refl, refl, refl, refl)

abbrev banned : GuardState
banned = record {
  ips =
      (ip, record { marks = []; banned_until = some (902 * second); last_seen = 2 * second })
      ∷ (other, record { marks = 0 ∷ []; banned_until = none; last_seen = 0 })
      ∷ [];
  last_cleanup = 0;
}

abbrev banned_entry : IpActivity
banned_entry = record { marks = []; banned_until = some (902 * second); last_seen = 2 * second }

banned-HasBan : HasBan ip (902 * second) banned
unfolding get ip_eq
banned-HasBan = record { activity = banned_entry; listed = refl; banned = refl }

abbrev probe : List ℕ
probe = codes "/.env"

-- `bans_on_third_probe_and_expires_after_fifteen_minutes`, after the probes of the other address
bans_on_third_probe :
    ((ScannerGuard.check plain ip probe (2 * second) (
      run plain
        (record { ip = ip; path = probe; at = 0 }
          ∷ record { ip = ip; path = codes "/missing"; at = 0 }
          ∷ record { ip = other; path = probe; at = 0 }
          ∷ record { ip = ip; path = codes "/wp-includes"; at = second }
          ∷ [])
        (init 0))).1)
    ≡ some 900
unfolding program
bans_on_third_probe = refl

banned-IsValid : (p : Policy) → 1 < p.limit → 1 < p.max_ips → IsValid p banned
unfolding program
banned-IsValid p h m = record {
  distinct = (refl, (refl, tt));
  bounded = omega arith;
  sound = λ k a e. ground arith;
}

-- Between the ban and its end come requests of both addresses.
ban-holds_example :
    (ScannerGuard.check plain ip (codes "/track/123") (3 * second) (
      run plain
        (record { ip = other; path = probe; at = second }
          ∷ record { ip = ip; path = probe; at = 2 * second }
          ∷ [])
        banned)).1
    ≡ some 899
ban-holds_example =
    ban-holds plain ip (902 * second)
      (record { ip = other; path = probe; at = second }
        ∷ record { ip = ip; path = probe; at = 2 * second }
        ∷ [])
      (codes "/track/123") (3 * second) banned
      (banned-IsValid probe_policy (omega arith) (omega arith)) banned-HasBan (omega arith)
      (omega arith) (omega arith)

run-IsValid_example :
    IsValid probe_policy (run plain (record { ip = ip; path = probe; at = second } ∷ []) banned)
run-IsValid_example =
    run-IsValid plain (record { ip = ip; path = probe; at = second } ∷ []) banned
      (banned-IsValid probe_policy (omega arith) (omega arith))

lock-holds_example :
    ((AdminAuthGuard.check ip
        (4 * second)
        (run_calls (fails other second ∷ clears other ∷ []) banned)).1
      ≡ some 898)
    × ((AdminAuthGuard.failed ip
          (4 * second)
          (run_calls (fails other second ∷ clears other ∷ []) banned)).1
        ≡ some 898)
lock-holds_example =
    lock-holds ip (902 * second) (fails other second ∷ clears other ∷ []) (4 * second) banned
      (banned-IsValid failure_policy (omega arith) (omega arith)) banned-HasBan
      (omega arith, ((λ e. ground arith), tt)) (omega arith) (omega arith)
