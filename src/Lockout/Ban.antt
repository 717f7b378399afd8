-- ===== src/Lockout/Ban.antt =====
-- A ban holds until it runs out: no request of the banned client or of another one lifts it, as
-- long as the table has room for a new address.
use hifi_api_rust.Base.{
  ℕ, ◌+◌, ◌-◌, ◌≤◌, ◌<◌, ◌≡◌, ◌≢◌, refl, inl, inr, true, some, arith, length, Option-cases,
  Bool-cases, leb, lt→ltb,
}
use hifi_api_rust.Base.Dict.{
  get, get-insert, get-remove, get-retain, length-insert, length-remove-le, length-retain-le,
  Distinct,
}
use hifi_api_rust.Lockout.{
  IpAddr, ip_eq, Policy, IpActivity, GuardState, cleanup, lift_ban, make_room, mark, entry, count,
  penalise, is_recent, seconds_left, victim,
}
use hifi_api_rust.Lockout.Invariant.{IsValid}

-- The table bans the address until the given instant.
pub record HasBan (ip : IpAddr) (until : ℕ) (g : GuardState) : Type 0 where
  pub activity : IpActivity
  pub listed : get ip_eq ip g.ips ≡ some activity
  pub banned : activity.banned_until ≡ some until

module _ {ip : IpAddr} {until : ℕ} (p : Policy) (now : ℕ) (early : now < until) where
  pub cleanup-HasBan :
      (g : GuardState)
      → Distinct ip_eq g.ips
      → HasBan ip until g
      → HasBan ip until (cleanup p now g)
  unfolding cleanup is_recent
  cleanup-HasBan g d b = record {
    activity = b.activity;
    listed =
        let live : is_recent p now b.activity ≡ true =
          rw (b.banned, lt→ltb now until early, is_recent) refl in
        elim (Bool-cases (leb p.window (now - g.last_cleanup))) [
          | inl e ↦
              rw (e, cleanup)
                (ground (arith, get-retain ip_eq ip (is_recent p now) g.ips d, b.listed, live))
          | inr e ↦ rw (e, cleanup) b.listed
        ];
    banned = b.banned;
  }

  pub lift_ban-HasBan :
      (other : IpAddr) (g : GuardState)
      → HasBan ip until g
      → HasBan ip until (lift_ban other now g).0
  unfolding lift_ban
  lift_ban-HasBan other g b = record {
    activity = b.activity;
    listed = ground (arith, b.listed, b.banned, get-remove ip_eq ip other g.ips);
    banned = b.banned;
  }

  -- While the ban runs, it is what every request of its client gets for an answer.
  pub lift_ban-answer :
      (g : GuardState) → HasBan ip until g → (lift_ban ip now g).1 ≡ some (seconds_left until now)
  unfolding lift_ban
  lift_ban-answer g b = ground (arith, b.listed, b.banned)

  pub penalise-answer :
      (g : GuardState)
      → Distinct ip_eq g.ips
      → HasBan ip until g
      → (penalise p ip now g).1 ≡ some (seconds_left until now)
  unfolding penalise
  penalise-answer g d b = ground (arith, lift_ban-answer (cleanup p now g) (cleanup-HasBan g d b))

make_room_free :
    (p : Policy) (ip : IpAddr) (g : GuardState) → length g.ips < p.max_ips → make_room p ip g ≡ g
unfolding make_room
make_room_free p ip g h = ground arith

pub cleanup-length :
    (p : Policy) (now : ℕ) (g : GuardState) → length (cleanup p now g).ips ≤ length g.ips
unfolding cleanup
cleanup-length p now g = ground (arith, length-retain-le (is_recent p now) g.ips)

pub lift_ban-length :
    (ip : IpAddr) (now : ℕ) (g : GuardState) → length (lift_ban ip now g).0.ips ≤ length g.ips
unfolding lift_ban
lift_ban-length ip now g = ground (arith, length-remove-le ip_eq ip g.ips)

count-length :
    (p : Policy) (ip : IpAddr) (now : ℕ) (g : GuardState)
    → length (count p ip now g).0.ips ≤ length g.ips + 1
unfolding count
count-length p ip now g =
    ground (arith, length-insert ip_eq ip (mark p now (entry ip now g)).0 g.ips)

make_room-length :
    (p : Policy) (ip : IpAddr) (g : GuardState) → length (make_room p ip g).ips ≤ length g.ips
unfolding make_room
make_room-length p ip g = elim (Option-cases (victim g.ips)) [
  | inl e ↦ ground arith
  | inr (v, e) ↦ ground (arith, length-remove-le ip_eq v.0 g.ips)
]

count-HasBan :
    {ip : IpAddr} {until : ℕ} (p : Policy) (other : IpAddr) (now : ℕ) (g : GuardState)
    → HasBan ip until g
    → ip ≢ other
    → HasBan ip until (count p other now g).0
unfolding count
count-HasBan {ip} p other now g b ne = record {
  activity = b.activity;
  listed =
      ground (arith, b.listed, get-insert ip_eq ip other (mark p now (entry other now g)).0 g.ips);
  banned = b.banned;
}

-- A table with room for one more address keeps every ban that is running.
pub penalise-HasBan :
    {ip : IpAddr} {until : ℕ} (p : Policy) (other : IpAddr) (now : ℕ) (g : GuardState)
    → IsValid p g
    → now < until
    → length g.ips < p.max_ips
    → HasBan ip until g
    → HasBan ip until (penalise p other now g).0
unfolding penalise
penalise-HasBan {ip} {until} p other now g v early room b =
    let cleaned = cleanup p now g in
    let kept = cleanup-HasBan p now early g v.distinct b in
    let lifted = lift_ban other now cleaned in
    let still = lift_ban-HasBan p now early other cleaned kept in
    elim (Option-cases lifted.1) [
      | inr (s, e) ↦ rw (e, penalise) still
      | inl e ↦
          let free : length lifted.0.ips < p.max_ips =
            omega (arith, room, lift_ban-length other now cleaned, cleanup-length p now g) in
          rw (e, penalise, make_room_free p other lifted.0 free)
            (count-HasBan p other now lifted.0 still
              (λ same. cc (e, same, lift_ban-answer p now early cleaned kept)))
    ]

pub penalise-length :
    (p : Policy) (ip : IpAddr) (now : ℕ) (g : GuardState)
    → length (penalise p ip now g).0.ips ≤ length g.ips + 1
unfolding penalise
penalise-length p ip now g =
    let lifted = lift_ban ip now (cleanup p now g) in
    elim (Option-cases lifted.1) [
      | inr (s, e) ↦
          rw (e, penalise)
            (omega (arith, lift_ban-length ip now (cleanup p now g), cleanup-length p now g))
      | inl e ↦
          rw (e, penalise)
            (omega (
              arith,
              count-length p ip now (make_room p ip lifted.0),
              make_room-length p ip lifted.0,
              lift_ban-length ip now (cleanup p now g),
              cleanup-length p now g,
            ))
    ]
