-- ===== src/ScannerGuard/Safety.antt =====
-- What `ScannerGuard::check` keeps over any sequence of requests.
use hifi_api_rust.Base.{
  ℕ, ◌+◌, ◌≤◌, ◌<◌, ◌≡◌, inl, inr, true, false, List, [], ◌∷◌, some, arith, length, Option-cases,
  Bool-cases, All,
}
use hifi_api_rust.Lockout.{IpAddr, GuardState, lift_ban, cleanup, seconds_left, penalise}
use hifi_api_rust.Lockout.Invariant.{IsValid, penalise-IsValid, cleanup-IsValid, lift_ban-IsValid}
use hifi_api_rust.Lockout.Ban.{
  HasBan, penalise-HasBan, penalise-length, lift_ban-HasBan, cleanup-HasBan, lift_ban-answer,
  cleanup-length, lift_ban-length,
}
use hifi_api_rust.ScannerGuard.{check, probe_policy}
use hifi_api_rust.ScannerGuard.Paths.{is_scanner_path}

pub record Request : Type 0 where
  pub ip : IpAddr
  pub path : List ℕ
  pub at : ℕ

module _ (decode : List ℕ → List ℕ) where
  -- A request for a scanner path is one mark; any other only lifts a ban that has run out.
  pub check-penalise :
      (ip : IpAddr) (path : List ℕ) (now : ℕ) (g : GuardState)
      → is_scanner_path decode path ≡ true
      → check decode ip path now g ≡ penalise probe_policy ip now g
  unfolding check penalise
  check-penalise ip path now g h =
      elim (Option-cases (lift_ban ip now (cleanup probe_policy now g)).1) [
        | inl e ↦ ground arith
        | inr (s, e) ↦ ground arith
      ]

  check-harmless :
      (ip : IpAddr) (path : List ℕ) (now : ℕ) (g : GuardState)
      → is_scanner_path decode path ≡ false
      → check decode ip path now g ≡ lift_ban ip now (cleanup probe_policy now g)
  unfolding check
  check-harmless ip path now g h =
      elim (Option-cases (lift_ban ip now (cleanup probe_policy now g)).1) [
        | inl e ↦ ground arith
        | inr (s, e) ↦ ground arith
      ]

  -- The table stays well formed and bounded whatever is asked.
  pub check-IsValid :
      (ip : IpAddr) (path : List ℕ) (now : ℕ) (g : GuardState)
      → IsValid probe_policy g
      → IsValid probe_policy (check decode ip path now g).0
  check-IsValid ip path now g v = elim (Bool-cases (is_scanner_path decode path)) [
    | inl e ↦
        rw (check-penalise ip path now g e)
          (penalise-IsValid probe_policy ip now g (omega arith) (omega arith) v)
    | inr e ↦
        rw (check-harmless ip path now g e)
          (lift_ban-IsValid probe_policy ip now _ (cleanup-IsValid probe_policy now g v))
  ]

  check-length :
      (ip : IpAddr) (path : List ℕ) (now : ℕ) (g : GuardState)
      → length (check decode ip path now g).0.ips ≤ length g.ips + 1
  check-length ip path now g = elim (Bool-cases (is_scanner_path decode path)) [
    | inl e ↦ rw (check-penalise ip path now g e) (penalise-length probe_policy ip now g)
    | inr e ↦ rw (check-harmless ip path now g e) (
        omega (
          arith,
          lift_ban-length ip now (cleanup probe_policy now g),
          cleanup-length probe_policy now g,
        ))
  ]

  check-HasBan :
      {ip : IpAddr} {until : ℕ} (other : IpAddr) (path : List ℕ) (now : ℕ) (g : GuardState)
      → IsValid probe_policy g
      → now < until
      → length g.ips < probe_policy.max_ips
      → HasBan ip until g
      → HasBan ip until (check decode other path now g).0
  check-HasBan other path now g v early room b = elim (Bool-cases (is_scanner_path decode path)) [
    | inl e ↦
        rw (check-penalise other path now g e)
          (penalise-HasBan probe_policy other now g v early room b)
    | inr e ↦ rw (check-harmless other path now g e) (
        lift_ban-HasBan probe_policy now early other _
          (cleanup-HasBan probe_policy now early g v.distinct b))
  ]

  unfoldable pub run : List Request → GuardState → GuardState
  run [] g = g
  run (r ∷ rs) g = run rs (check decode r.ip r.path r.at g).0

  -- From a well-formed table, no request history leaves the table malformed or over its bound.
  pub run-IsValid :
      (rs : List Request) (g : GuardState)
      → IsValid probe_policy g
      → IsValid probe_policy (run rs g)
  unfolding run
  run-IsValid [] g v = v
  run-IsValid (r ∷ rs) g v = run-IsValid rs _ (check-IsValid r.ip r.path r.at g v)

  run-HasBan :
      {ip : IpAddr} {until : ℕ} (rs : List Request) (g : GuardState)
      → IsValid probe_policy g
      → HasBan ip until g
      → All (λ r. r.at < until) rs
      → length g.ips + length rs ≤ probe_policy.max_ips
      → HasBan ip until (run rs g)
  unfolding run
  run-HasBan [] g v b early room = b
  run-HasBan (r ∷ rs) g v b early room =
      run-HasBan rs (check decode r.ip r.path r.at g).0 (check-IsValid r.ip r.path r.at g v)
        (check-HasBan r.ip r.path r.at g v early.0 (omega arith) b) early.1
        (omega (arith, check-length r.ip r.path r.at g))

  check-banned :
      {ip : IpAddr} {until : ℕ} (path : List ℕ) (now : ℕ) (g : GuardState)
      → IsValid probe_policy g
      → HasBan ip until g
      → now < until
      → (check decode ip path now g).1 ≡ some (seconds_left until now)
  unfolding check
  check-banned path now g v b early = ground (
    arith,
    lift_ban-answer probe_policy now early _ (cleanup-HasBan probe_policy now early g v.distinct b),
  )

  -- Once the table bans an address, every request of it before the ban's end is answered with the
  -- seconds left (at least 1), whatever requests of any address come in between before that end,
  -- as long as the table has a place for each of them.
  pub ban-holds :
      (ip : IpAddr) (until : ℕ) (rs : List Request) (path : List ℕ) (now : ℕ) (g : GuardState)
      → IsValid probe_policy g
      → HasBan ip until g
      → All (λ r. r.at < until) rs
      → length g.ips + length rs ≤ probe_policy.max_ips
      → now < until
      → (check decode ip path now (run rs g)).1 ≡ some (seconds_left until now)
  ban-holds ip until rs path now g v b early room live =
      check-banned path now (run rs g) (run-IsValid rs g v) (run-HasBan rs g v b early room) live
