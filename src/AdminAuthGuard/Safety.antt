-- ===== src/AdminAuthGuard/Safety.antt =====
-- What `AdminAuthGuard` keeps over any sequence of its calls.
use hifi_api_rust.Base.{ℕ, ◌+◌, ◌≤◌, ◌<◌, ◌≡◌, ◌≢◌, refl, List, [], ◌∷◌, some, arith, length, All}
use hifi_api_rust.Base.Dict.{get-remove, length-remove-le}
use hifi_api_rust.Lockout.{IpAddr, ip_eq, GuardState, seconds_left, penalise}
use hifi_api_rust.Lockout.Invariant.{IsValid, penalise-IsValid, lift_ban-IsValid, remove-IsValid}
use hifi_api_rust.Lockout.Ban.{
  HasBan, penalise-HasBan, penalise-length, lift_ban-HasBan, lift_ban-answer, lift_ban-length,
  penalise-answer,
}
use hifi_api_rust.AdminAuthGuard.{check, failed, clear, failure_policy}

-- The three calls of the guard, each for one address.
pub data Call : Type 0 where
  checks : IpAddr → ℕ → Call
  fails : IpAddr → ℕ → Call
  clears : IpAddr → Call

unfoldable pub step : GuardState → Call → GuardState
step g (checks ip now) = (check ip now g).0
step g (fails ip now) = (failed ip now g).0
step g (clears ip) = clear ip g

unfoldable pub run : List Call → GuardState → GuardState
run [] g = g
run (c ∷ cs) g = run cs (step g c)

failed-penalise :
    (ip : IpAddr) (now : ℕ) (g : GuardState) → failed ip now g ≡ penalise failure_policy ip now g
unfolding failed penalise
failed-penalise ip now g = refl

step-IsValid :
    (g : GuardState) (c : Call) → IsValid failure_policy g → IsValid failure_policy (step g c)
unfolding step check clear
step-IsValid g (checks ip now) v = lift_ban-IsValid failure_policy ip now g v
step-IsValid g (fails ip now) v =
    rw (step, failed-penalise ip now g)
      (penalise-IsValid failure_policy ip now g (omega arith) (omega arith) v)
step-IsValid g (clears ip) v = remove-IsValid failure_policy ip g v

pub run-IsValid :
    (cs : List Call) (g : GuardState) → IsValid failure_policy g → IsValid failure_policy (run cs g)
unfolding run
run-IsValid [] g v = v
run-IsValid (c ∷ cs) g v = run-IsValid cs (step g c) (step-IsValid g c v)

-- A call that comes before the lock's end and does not clear the locked address.
abbrev pub Spares : IpAddr → ℕ → Call → Type 0
Spares ip until (checks other now) = now < until
Spares ip until (fails other now) = now < until
Spares ip until (clears other) = ip ≢ other

step-HasBan :
    {ip : IpAddr} {until : ℕ} (g : GuardState) (c : Call)
    → IsValid failure_policy g
    → HasBan ip until g
    → Spares ip until c
    → length g.ips < failure_policy.max_ips
    → HasBan ip until (step g c)
unfolding step check clear
step-HasBan g (checks other now) v b h room = lift_ban-HasBan failure_policy now h other g b
step-HasBan g (fails other now) v b h room =
    rw (step, failed-penalise other now g) (penalise-HasBan failure_policy other now g v h room b)
step-HasBan {ip} g (clears other) v b h room = record {
  activity = b.activity;
  listed = ground (arith, b.listed, get-remove ip_eq ip other g.ips);
  banned = b.banned;
}

step-length : (g : GuardState) (c : Call) → length (step g c).ips ≤ length g.ips + 1
unfolding step check clear
step-length g (checks ip now) = omega (arith, lift_ban-length ip now g)
step-length g (fails ip now) =
    rw (step, failed-penalise ip now g) (penalise-length failure_policy ip now g)
step-length g (clears ip) = omega (arith, length-remove-le ip_eq ip g.ips)

run-HasBan :
    {ip : IpAddr} {until : ℕ} (cs : List Call) (g : GuardState)
    → IsValid failure_policy g
    → HasBan ip until g
    → All (Spares ip until) cs
    → length g.ips + length cs ≤ failure_policy.max_ips
    → HasBan ip until (run cs g)
unfolding run
run-HasBan [] g v b h room = b
run-HasBan (c ∷ cs) g v b h room =
    run-HasBan cs (step g c) (step-IsValid g c v) (step-HasBan g c v b h.0 (omega arith)) h.1
      (omega (arith, step-length g c))

-- Once an address is locked out, each check of it and each further failure before the lock's end
-- is answered with the seconds left (at least 1), after any calls in between that come before that
-- end and do not clear this address, as long as the table has a place for each of them.
pub lock-holds :
    (ip : IpAddr) (until : ℕ) (cs : List Call) (now : ℕ) (g : GuardState)
    → IsValid failure_policy g
    → HasBan ip until g
    → All (Spares ip until) cs
    → length g.ips + length cs ≤ failure_policy.max_ips
    → now < until
    → ((check ip now (run cs g)).1 ≡ some (seconds_left until now))
      × ((failed ip now (run cs g)).1 ≡ some (seconds_left until now))
unfolding check
lock-holds ip until cs now g v b h room early =
    let kept = run-HasBan cs g v b h room in
    (
      lift_ban-answer failure_policy now early _ kept,
      rw (failed-penalise ip now (run cs g))
          (penalise-answer failure_policy now early (run cs g) (run-IsValid cs g v).distinct kept),
    )
