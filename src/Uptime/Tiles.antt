-- ===== src/Uptime/Tiles.antt =====
-- Segments that cover an interval without a gap, each with the status that holds through it.
use mathlib.Core.Option
use hifi_api_rust.Base.{
  ℕ, zero, suc, ◌+◌, ◌-◌, ◌≡◌, ◌≤◌, ◌<◌, refl, sym, ap, ◌∙◌, Bool, true, false, List, [], ◌∷◌,
  Option, none, some, arith, if◌then◌else◌, Bool-cases, Option-cases, inl, inr, ◌==◌, ◌&&◌, ltb,
  subst,
}
use hifi_api_rust.Uptime.History.{Event, UptimeStatus, up, down, waiting, status}
use hifi_api_rust.Uptime.Summary.{
  UptimeSegment, same_status, append_segment, append_interval, expiry_inside, seconds_in,
}

abbrev pub active_in : Option UptimeStatus → Option Bool
active_in none = none
active_in (some up) = some true
active_in (some down) = some false
active_in (some waiting) = some true

-- The status that holds at each instant of the interval from `a` up to `b`.
abbrev pub Holds : (ℕ → Option UptimeStatus) → Option UptimeStatus → ℕ → ℕ → Type 0
Holds f st a b = (t : ℕ) → a ≤ t → t < b → f t ≡ st

-- The segments lie end to end from `a` up to `b`; none is empty, and each tells the status `f t` of
-- all its instants `t` and whether the account was switched on then.
abbrev pub Tiles : (ℕ → Option UptimeStatus) → ℕ → ℕ → List UptimeSegment → Type 0
Tiles f a b [] = a ≡ b
Tiles f a b (s ∷ r) =
    (s.start ≡ a)
    × (s.start < s.end)
    × Holds f s.status s.start s.end
    × (s.active ≡ active_in s.status)
    × Tiles f s.end b r

same_status_eq : (s t : Option UptimeStatus) → same_status s t ≡ true → s ≡ t
same_status_eq none none h = refl
same_status_eq (some up) (some up) h = refl
same_status_eq (some down) (some down) h = refl
same_status_eq (some waiting) (some waiting) h = refl
same_status_eq none (some t) h = cc
same_status_eq (some up) none h = cc
same_status_eq (some down) none h = cc
same_status_eq (some waiting) none h = cc
same_status_eq (some up) (some down) h = cc
same_status_eq (some up) (some waiting) h = cc
same_status_eq (some down) (some up) h = cc
same_status_eq (some down) (some waiting) h = cc
same_status_eq (some waiting) (some up) h = cc
same_status_eq (some waiting) (some down) h = cc

active_in-status :
    (t : ℕ) (o : Option Event) → Option.map (λ e. e.active) o ≡ active_in (Option.map (status t) o)
unfolding status
active_in-status t none = refl
active_in-status t (some e) = ground arith

Holds-join :
    (f : ℕ → Option UptimeStatus) (st : Option UptimeStatus) (a b c : ℕ)
    → Holds f st a b
    → Holds f st b c
    → Holds f st a c
Holds-join f st a b c g h t l r = elim (Bool-cases (ltb t b)) [
  | inl e ↦ g t l (ground arith)
  | inr e ↦ h t (ground arith) r
]

-- A last segment with the status of the next interval grows over it.
grown :
    (f : ℕ → Option UptimeStatus) (a b c : ℕ) (s : UptimeSegment) (event : Option Event)
    → Tiles f a b (s ∷ [])
    → b < c
    → Holds f (Option.map (status b) event) b c
    → same_status s.status (Option.map (status b) event) ≡ true
    → Tiles f a c (record s { end = c } ∷ [])
grown f a b c s event tiles l h same = (
  tiles.0,
  omega arith,
  Holds-join f s.status s.start s.end c tiles.2 (
      subst (λ st. Holds f st s.end c)
        (sym (same_status_eq s.status (Option.map (status b) event) same))
        (subst (λ e. Holds f (Option.map (status b) event) e c) (sym tiles.4) h)),
  tiles.3,
  refl,
)

pub append_segment-Tiles :
    (f : ℕ → Option UptimeStatus) (a b c : ℕ) (segments : List UptimeSegment) (event : Option Event)
    → Tiles f a b segments
    → b < c
    → Holds f (Option.map (status b) event) b c
    → Tiles f a c (append_segment segments b c event)
unfolding append_segment
append_segment-Tiles f a b c [] event tiles l h = (sym tiles, l, h, active_in-status b event, refl)
append_segment-Tiles f a b c (s ∷ []) event tiles l h =
    elim (Bool-cases (s.end == b && same_status s.status (Option.map (status b) event))) [
      | inl e ↦ rw e (grown f a b c s event tiles l h (ground arith))
      | inr e ↦
          rw e (
            tiles.0,
            tiles.1,
            tiles.2,
            tiles.3,
            (sym tiles.4, l, h, active_in-status b event, refl),
          )
    ]
append_segment-Tiles f a b c (s ∷ t ∷ r) event tiles l h =
    (tiles.0, tiles.1, tiles.2, tiles.3, append_segment-Tiles f s.end b c (t ∷ r) event tiles.4 l h)

-- Without an expiry inside, an interval has one status.
unsplit :
    (b c t : ℕ) (event : Option Event)
    → expiry_inside b c event ≡ none
    → b ≤ t
    → t < c
    → Option.map (status t) event ≡ Option.map (status b) event
unfolding expiry_inside status
unsplit b c t none h l r = refl
unsplit b c t (some e) h l r = ground arith

split_inside :
    (b c x : ℕ) (event : Option Event) → expiry_inside b c event ≡ some x → (b < x) × (x < c)
unfolding expiry_inside
split_inside b c x none h = cc
split_inside b c x (some e) h = ground arith

split_before :
    (b c x t : ℕ) (event : Option Event)
    → expiry_inside b c event ≡ some x
    → t < x
    → b ≤ t
    → Option.map (status t) event ≡ Option.map (status b) event
unfolding expiry_inside status
split_before b c x t none h l g = refl
split_before b c x t (some e) h l g = ground arith

split_after :
    (b c x t : ℕ) (event : Option Event)
    → expiry_inside b c event ≡ some x
    → x ≤ t
    → Option.map (status t) event ≡ Option.map (status x) event
unfolding expiry_inside status
split_after b c x t none h l = refl
split_after b c x t (some e) h l = ground arith

-- The status of an interval through which one event is the last.
abbrev pub Follows : (ℕ → Option UptimeStatus) → Option Event → ℕ → ℕ → Type 0
Follows f event b c = (t : ℕ) → b ≤ t → t < c → f t ≡ Option.map (status t) event

pub append_interval-Tiles :
    (f : ℕ → Option UptimeStatus) (a b c : ℕ) (segments : List UptimeSegment) (event : Option Event)
    → Tiles f a b segments
    → b < c
    → Follows f event b c
    → Tiles f a c (append_interval segments b c event)
unfolding append_interval
append_interval-Tiles f a b c segments event tiles l h =
    elim (Option-cases (expiry_inside b c event)) [
      | inl e ↦
          rw (e, append_interval)
            (append_segment-Tiles f a b c segments event tiles l
              (λ t p q. h t p q ∙ unsplit b c t event e p q))
      | inr (x, e) ↦
          let (left, right) = split_inside b c x event e in
          rw (e, append_interval)
            (append_segment-Tiles f a x c (append_segment segments b x event) event
              (append_segment-Tiles f a b x segments event tiles left
                (λ t p q. h t p (omega arith) ∙ split_before b c x t event e q p))
              right (λ t p q. h t (omega arith) q ∙ split_after b c x t event e p))
    ]

-- The seconds of `n` instants from `a` on in which the status is `st`, counted one by one.
unfoldable pub seconds_of : (ℕ → Option UptimeStatus) → UptimeStatus → ℕ → ℕ → ℕ
seconds_of f st a zero = 0
seconds_of f st a (suc n) =
    (if same_status (f a) (some st) then 1 else 0) + seconds_of f st (suc a) n

seconds_of-Holds :
    (f : ℕ → Option UptimeStatus) (st : UptimeStatus) (s : Option UptimeStatus) (a n m : ℕ)
    → Holds f s a (a + n)
    → seconds_of f st a (n + m)
      ≡ (if same_status s (some st) then n else 0) + seconds_of f st (a + n) m
unfolding seconds_of
seconds_of-Holds f st s a zero m h =
    let left : 0 + m ≡ m = omega arith in
    let right : a + 0 ≡ a = omega arith in rw (left, right) (ground arith)
seconds_of-Holds f st s a (suc n) m h =
    let left : suc n + m ≡ suc (n + m) = omega arith in
    let right : a + suc n ≡ suc a + n = omega arith in
    rw (left, right, h a (omega arith) (omega arith))
      (ground
        (arith, seconds_of-Holds f st s (suc a) n m (λ t p q. h t (omega arith) (omega arith))))

pub Tiles-le :
    (f : ℕ → Option UptimeStatus) (a b : ℕ) (segments : List UptimeSegment)
    → Tiles f a b segments
    → a ≤ b
Tiles-le f a b [] h = omega arith
Tiles-le f a b (s ∷ r) h = omega (arith, Tiles-le f s.end b r h.4)

pub seconds_in-Tiles :
    (f : ℕ → Option UptimeStatus) (st : UptimeStatus) (a n : ℕ) (segments : List UptimeSegment)
    → Tiles f a (a + n) segments
    → seconds_in st segments ≡ seconds_of f st a n
unfolding seconds_in seconds_of
seconds_in-Tiles f st a n [] h = let none_left : n ≡ 0 = omega arith in rw none_left refl
seconds_in-Tiles f st a n (s ∷ r) h =
    let end_le = Tiles-le f s.end (a + n) r h.4 in
    let k = s.end - s.start in
    let m = a + n - s.end in
    let parts : n ≡ k + m = omega arith in
    let next : a + k ≡ s.end = omega arith in
    let whole : a + n ≡ s.end + m = omega arith in
    let here : Holds f s.status a (a + k) =
      subst (λ t. Holds f s.status t (a + k)) h.0
        (subst (λ t. Holds f s.status s.start t) (sym next) h.2) in
    let rest : seconds_in st r ≡ seconds_of f st s.end m =
      seconds_in-Tiles f st s.end m r (subst (λ t. Tiles f s.end t r) whole h.4) in
    let first : seconds_of f st a (k + m)
        ≡ (if same_status s.status (some st) then k else 0) + seconds_of f st (a + k) m =
      seconds_of-Holds f st s.status a k m here in
    ap (λ (v : ℕ). (if same_status s.status (some st) then k else 0) + v)
      (rest ∙ ap (λ (t : ℕ). seconds_of f st t m) (sym next))
    ∙ sym first
    ∙ ap (λ (v : ℕ). seconds_of f st a v) (sym parts)
