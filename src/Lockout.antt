-- ===== src/Lockout.antt =====
-- src/scanner_guard.rs and src/admin/auth_guard.rs keep the same state and share their steps: a
-- sliding window of marks for each client address, and a temporary ban once there are too many.
-- An `Instant` is a count of nanoseconds; `duration_since` stops at 0, as `-` on ℕ does.
pub mod Invariant
pub mod Ban
use hifi_api_rust.Base.{
  ℕ, ◌+◌, ◌-◌, ◌*◌, ◌/◌, max, Bool, true, false, not, ◌&&◌, ◌||◌, List, [], ◌∷◌, ◌++◌, Option, none,
  some, ℕ_discrete, ltb, leb, if◌then◌else◌, length,
}
use hifi_api_rust.Base.Dict.{get, insert, remove, retain, contains_key}

-- An address of either family, by the number that it stands for.
pub data IpAddr : Type 0 where
  v4 : ℕ → IpAddr
  v6 : ℕ → IpAddr

unfoldable pub ip_eq : Discrete IpAddr
unfolding ℕ_discrete
ip_eq = hlevel ℕ_discrete

-- One second, in nanoseconds.
abbrev pub second : ℕ
second = 1_000_000_000

-- The constants at the top of each file.
pub record Policy : Type 0 where
  pub window : ℕ
  pub ban : ℕ
  pub limit : ℕ
  pub max_ips : ℕ

pub record IpActivity : Type 0 where
  pub marks : List ℕ
  pub banned_until : Option ℕ
  pub last_seen : ℕ

pub record GuardState : Type 0 where
  pub ips : List (IpAddr × IpActivity)
  pub last_cleanup : ℕ

unfoldable pub init : ℕ → GuardState
init now = record { ips = []; last_cleanup = now }

-- `until.is_some_and(|until| until > now)`
unfoldable pub is_banned : ℕ → IpActivity → Bool
is_banned now a = elim a.banned_until [ none ↦ false | some until ↦ ltb now until ]

unfoldable pub is_recent : Policy → ℕ → IpActivity → Bool
unfolding is_banned
is_recent p now a = is_banned now a || ltb (now - a.last_seen) p.window

unfoldable pub cleanup : Policy → ℕ → GuardState → GuardState
cleanup p now g =
    if leb p.window (now - g.last_cleanup)
    then record { ips = retain (is_recent p now) g.ips; last_cleanup = now }
    else g

abbrev pub seconds_left : ℕ → ℕ → ℕ
seconds_left until now = max ((until - now) / second) 1

-- The seconds left on a ban; a ban that has run out takes the entry with it.
unfoldable pub lift_ban : IpAddr → ℕ → GuardState → GuardState × Option ℕ
lift_ban ip now g = elim (get ip_eq ip g.ips) [
  | none ↦ (g, none)
  | some a ↦ elim a.banned_until [
    | none ↦ (g, none)
    | some until ↦
        if ltb now until
        then (g, some (seconds_left until now))
        else (record g { ips = remove ip_eq ip g.ips }, none)
  ]
]

-- `min_by_key`: the first of the entries with the least `last_seen`.
unfoldable pub least_recent : List (IpAddr × IpActivity) → Option (IpAddr × IpActivity)
least_recent [] = none
least_recent (e ∷ m) = elim (least_recent m) [
  | none ↦ some e
  | some f ↦ if leb e.1.last_seen f.1.last_seen then some e else some f
]

abbrev pub is_unbanned : IpActivity → Bool
is_unbanned a = elim a.banned_until [ none ↦ true | some until ↦ false ]

-- Prefer an address that is not banned.
unfoldable pub victim : List (IpAddr × IpActivity) → Option (IpAddr × IpActivity)
victim m = elim (least_recent (retain is_unbanned m)) [ some e ↦ some e | none ↦ least_recent m ]

unfoldable pub make_room : Policy → IpAddr → GuardState → GuardState
make_room p ip g =
    if not (contains_key ip_eq ip g.ips) && leb p.max_ips (length g.ips)
    then (elim (victim g.ips) [ none ↦ g | some e ↦ record g { ips = remove ip_eq e.0 g.ips } ])
    else g

-- `while front is older than the window { pop_front }`
unfoldable pub drop_old : ℕ → ℕ → List ℕ → List ℕ
drop_old window now [] = []
drop_old window now (t ∷ ts) = if leb window (now - t) then drop_old window now ts else t ∷ ts

unfoldable pub entry : IpAddr → ℕ → GuardState → IpActivity
entry ip now g = elim (get ip_eq ip g.ips) [
  | none ↦ record { marks = []; banned_until = none; last_seen = now }
  | some a ↦ a
]

-- One more mark in an entry; the one that reaches the limit starts a ban.
unfoldable pub mark : Policy → ℕ → IpActivity → IpActivity × Option ℕ
mark p now a =
    let marks = drop_old p.window now a.marks ++ now ∷ [] in
    if leb p.limit (length marks)
    then (
      record { marks = []; banned_until = some (now + p.ban); last_seen = now },
      some (p.ban / second),
    )
    else (record { marks = marks; banned_until = a.banned_until; last_seen = now }, none)

unfoldable pub count : Policy → IpAddr → ℕ → GuardState → GuardState × Option ℕ
count p ip now g =
    let (a, answer) = mark p now (entry ip now g) in
    (record g { ips = insert ip_eq ip a g.ips }, answer)

-- A mark as both files count it: an active ban answers by itself.
unfoldable pub penalise : Policy → IpAddr → ℕ → GuardState → GuardState × Option ℕ
penalise p ip now g =
    let (h, left) = lift_ban ip now (cleanup p now g) in
    elim left [ some s ↦ (h, some s) | none ↦ count p ip now (make_room p ip h) ]
