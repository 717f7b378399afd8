-- ===== src/Lockout/Invariant.antt =====
-- The table of a guard stays well formed: every step keeps one entry to an address, the bound on
-- the entries, fewer marks than the limit in each, and no marks beside a ban.
use hifi_api_rust.Base.{
  ℕ, ◌-◌, ◌≤◌, ◌<◌, ◌≡◌, ◌≢◌, refl, ◌⊎◌, inl, inr, true, List, [], ◌∷◌, none, some, arith, length,
  Option-cases, Bool-cases, leb, sym, ap, subst,
}
use hifi_api_rust.Base.Dict.{
  get, insert, remove, retain, contains_key, Distinct, Every, get-insert, get-remove, get-retain,
  insert-Distinct, remove-Distinct, retain-Distinct, length-insert, length-remove-le,
  length-remove_present, length-retain-le,
}
use hifi_api_rust.Lockout.{
  IpAddr, ip_eq, Policy, IpActivity, GuardState, init, cleanup, lift_ban, least_recent, is_unbanned,
  victim, make_room, drop_old, entry, mark, count, penalise, is_recent,
}

pub record IsOk (p : Policy) (a : IpActivity) : Type 0 where
  pub few : length a.marks < p.limit
  pub apart : (a.banned_until ≡ none) ⊎ (a.marks ≡ [])

pub record IsValid (p : Policy) (g : GuardState) : Type 0 where
  pub distinct : Distinct ip_eq g.ips
  pub bounded : length g.ips ≤ p.max_ips
  pub sound : Every ip_eq (IsOk p) g.ips

pub init-IsValid : (p : Policy) (now : ℕ) → IsValid p (init now)
unfolding init get
init-IsValid p now = record { distinct = tt; bounded = omega arith; sound = λ k v h. cc }

pub cleanup-IsValid :
    (p : Policy) (now : ℕ) (g : GuardState) → IsValid p g → IsValid p (cleanup p now g)
unfolding cleanup
cleanup-IsValid p now g v = elim (Bool-cases (leb p.window (now - g.last_cleanup))) [
  | inl e ↦ rw e (record {
    distinct = retain-Distinct ip_eq (is_recent p now) g.ips v.distinct;
    bounded = omega (arith, v.bounded, length-retain-le (is_recent p now) g.ips);
    sound = λ k a h.
        v.sound k a (ground (arith, get-retain ip_eq k (is_recent p now) g.ips v.distinct));
  })
  | inr e ↦ rw e v
]

pub remove-IsValid :
    (p : Policy) (ip : IpAddr) (g : GuardState)
    → IsValid p g
    → IsValid p (record g { ips = remove ip_eq ip g.ips })
remove-IsValid p ip g v = record {
  distinct = remove-Distinct ip_eq ip g.ips v.distinct;
  bounded = omega (arith, v.bounded, length-remove-le ip_eq ip g.ips);
  sound = λ k a h. v.sound k a (ground (arith, get-remove ip_eq k ip g.ips));
}

-- After `lift_ban` answers nothing, the address has no ban in the table.
pub lift_ban-IsValid :
    (p : Policy) (ip : IpAddr) (now : ℕ) (g : GuardState)
    → IsValid p g
    → IsValid p (lift_ban ip now g).0
unfolding lift_ban
lift_ban-IsValid p ip now g v = ground (arith, remove-IsValid p ip g v)

-- The victim is an entry of the table.
least_recent-get :
    (m : List (IpAddr × IpActivity)) (e : IpAddr × IpActivity)
    → Distinct ip_eq m
    → least_recent m ≡ some e
    → get ip_eq e.0 m ≡ some e.1
unfolding least_recent get
least_recent-get [] e d h = cc
least_recent-get ((k, a) ∷ m) e d h = elim (Option-cases (least_recent m)) [
  | inl n ↦ ground arith
  | inr (f, s) ↦ ground (arith, least_recent-get m f d.1)
]

least_recent-some :
    (k : IpAddr) (a : IpActivity) (m : List (IpAddr × IpActivity))
    → get ip_eq k m ≡ some a
    → least_recent m ≢ none
unfolding least_recent get
least_recent-some k a [] h = cc
least_recent-some k a ((j, b) ∷ m) h = ground arith

pub victim-get :
    (m : List (IpAddr × IpActivity)) (e : IpAddr × IpActivity)
    → Distinct ip_eq m
    → victim m ≡ some e
    → get ip_eq e.0 m ≡ some e.1
unfolding victim
victim-get m e d h = elim (Option-cases (least_recent (retain is_unbanned m))) [
  | inl n ↦ least_recent-get m e d (ground arith)
  | inr (f, s) ↦ ground (
    arith,
    least_recent-get (retain is_unbanned m) f (retain-Distinct ip_eq is_unbanned m d) s,
    get-retain ip_eq f.0 is_unbanned m d,
  )
]

-- No ban stands at the address.
abbrev pub NoBan : IpAddr → GuardState → Type 0
NoBan ip g = (a : IpActivity) → get ip_eq ip g.ips ≡ some a → a.banned_until ≡ none

pub lift_ban-NoBan :
    (ip : IpAddr) (now : ℕ) (g : GuardState)
    → (lift_ban ip now g).1 ≡ none
    → NoBan ip (lift_ban ip now g).0
unfolding lift_ban
lift_ban-NoBan ip now g h a e = ground (arith, get-remove ip_eq ip ip g.ips)

pub make_room-IsValid :
    (p : Policy) (ip : IpAddr) (g : GuardState) → IsValid p g → IsValid p (make_room p ip g)
unfolding make_room
make_room-IsValid p ip g v = elim (Option-cases (victim g.ips)) [
  | inl n ↦ ground arith
  | inr (e, s) ↦ ground (arith, remove-IsValid p e.0 g v)
]

pub make_room-NoBan :
    (p : Policy) (ip : IpAddr) (g : GuardState) → NoBan ip g → NoBan ip (make_room p ip g)
unfolding make_room
make_room-NoBan p ip g n a e = elim (Option-cases (victim g.ips)) [
  | inl none_left ↦ ground (arith, n a)
  | inr (f, s) ↦ ground (arith, get-remove ip_eq ip f.0 g.ips, n a)
]

victim-some : (e : IpAddr × IpActivity) (m : List (IpAddr × IpActivity)) → victim (e ∷ m) ≢ none
unfolding victim least_recent
victim-some e m = ground arith

-- Where the address is new there is room for it afterwards.
pub make_room-room :
    (p : Policy) (ip : IpAddr) (g : GuardState)
    → IsValid p g
    → 0 < p.max_ips
    → (contains_key ip_eq ip (make_room p ip g).ips ≡ true)
      ⊎ (length (make_room p ip g).ips < p.max_ips)
unfolding make_room contains_key
make_room-room p ip g v pos = elim (Option-cases (victim g.ips)) [
  | inl n ↦ nonempty g.ips refl n
  | inr (e, s) ↦ ground (
    arith,
    length-remove_present ip_eq e.0 e.1 g.ips (victim-get g.ips e v.distinct s),
    v.bounded,
  )
]
  where
    nonempty :
        (m : List (IpAddr × IpActivity))
        → m ≡ g.ips
        → victim g.ips ≡ none
        → (contains_key ip_eq ip (make_room p ip g).ips ≡ true)
          ⊎ (length (make_room p ip g).ips < p.max_ips)
    nonempty [] e n = ground (arith, ap length e)
    nonempty (f ∷ m) e n = absurd (victim-some f m (subst (λ l. victim l ≡ none) (sym e) n))

drop_old-length : (w now : ℕ) (ts : List ℕ) → length (drop_old w now ts) ≤ length ts
unfolding drop_old
drop_old-length w now [] = omega arith
drop_old-length w now (t ∷ ts) = ground (arith, drop_old-length w now ts)

pub insert-IsValid :
    (p : Policy) (ip : IpAddr) (a : IpActivity) (g : GuardState)
    → IsValid p g
    → (contains_key ip_eq ip g.ips ≡ true) ⊎ (length g.ips < p.max_ips)
    → IsOk p a
    → IsValid p (record g { ips = insert ip_eq ip a g.ips })
insert-IsValid p ip a g v room fine = record {
  distinct = insert-Distinct ip_eq ip a g.ips v.distinct;
  bounded = ground (arith, v.bounded, length-insert ip_eq ip a g.ips);
  sound = λ k b h. ground (arith, get-insert ip_eq k ip a g.ips, v.sound k b);
}

pub entry-clear :
    (ip : IpAddr) (now : ℕ) (g : GuardState) → NoBan ip g → (entry ip now g).banned_until ≡ none
unfolding entry
entry-clear ip now g n = elim (Option-cases (get ip_eq ip g.ips)) [
  | inl e ↦ rw (e, entry)
  | inr (a, e) ↦ rw (e, entry) (n a e)
]

mark-IsOk :
    (p : Policy) (now : ℕ) (a : IpActivity)
    → 0 < p.limit
    → a.banned_until ≡ none
    → IsOk p (mark p now a).0
unfolding mark
mark-IsOk p now a pos e = ground arith

pub count-IsValid :
    (p : Policy) (ip : IpAddr) (now : ℕ) (g : GuardState)
    → IsValid p g
    → 0 < p.limit
    → (contains_key ip_eq ip g.ips ≡ true) ⊎ (length g.ips < p.max_ips)
    → NoBan ip g
    → IsValid p (count p ip now g).0
unfolding count
count-IsValid p ip now g v pos room n =
    insert-IsValid p ip _ g v room (mark-IsOk p now (entry ip now g) pos (entry-clear ip now g n))

-- A mark keeps the table well formed, whichever branch it takes.
pub penalise-IsValid :
    (p : Policy) (ip : IpAddr) (now : ℕ) (g : GuardState)
    → 0 < p.limit
    → 0 < p.max_ips
    → IsValid p g
    → IsValid p (penalise p ip now g).0
unfolding penalise
penalise-IsValid p ip now g pos some_room v =
    let lifted = lift_ban ip now (cleanup p now g) in
    let valid = lift_ban-IsValid p ip now (cleanup p now g) (cleanup-IsValid p now g v) in
    elim (Option-cases lifted.1) [
      | inl e ↦
          rw (e, penalise)
            (count-IsValid p ip now (make_room p ip lifted.0)
              (make_room-IsValid p ip lifted.0 valid) pos
              (make_room-room p ip lifted.0 valid some_room)
              (make_room-NoBan p ip lifted.0 (lift_ban-NoBan ip now (cleanup p now g) e)))
      | inr (s, e) ↦ rw (e, penalise) valid
    ]
