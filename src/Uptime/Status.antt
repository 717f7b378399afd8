-- ===== src/Uptime/Status.antt =====
-- The status that a history gives each instant, which pruning leaves alone inside the window.
use mathlib.Core.Option
use hifi_api_rust.Base.{
  ℕ, zero, suc, ◌+◌, ◌-◌, ◌≡◌, ◌≤◌, ◌<◌, refl, sym, ap, ◌∙◌, List, [], ◌∷◌, Option, none, some,
  arith, if◌then◌else◌, Bool-cases, inl, inr, leb, ltb, drop, le→leb,
}
use hifi_api_rust.Uptime.History.{
  Event, UptimeStatus, status, prune, window_secs, partition_point, is_old,
}

-- The events are in the order of their times, none before `l`.
abbrev pub SortedFrom : ℕ → List Event → Type 0
SortedFrom l [] = Unit
SortedFrom l (e ∷ es) = (l ≤ e.at) × SortedFrom e.at es

abbrev pub IsSorted : List Event → Type 0
IsSorted events = SortedFrom 0 events

-- The last event up to an instant, if `before` is the one that precedes the list.
abbrev pub last_until : Option Event → List Event → ℕ → Option Event
last_until before [] t = before
last_until before (e ∷ es) t = last_until (if leb e.at t then some e else before) es t

-- The status that the history gives an instant; none before the first event.
abbrev pub status_at : List Event → ℕ → Option UptimeStatus
status_at events t = Option.map (status t) (last_until none events t)

pub last_until-later :
    (before : Option Event) (l t : ℕ) (es : List Event)
    → SortedFrom l es
    → t < l
    → last_until before es t ≡ before
last_until-later before l t [] s h = refl
last_until-later before l t (e ∷ es) s h = ground (arith, last_until-later before e.at t es s.1)

pub last_until-earlier :
    (before : Option Event) (e : Event) (es : List Event) (t : ℕ)
    → e.at ≤ t
    → last_until before (e ∷ es) t ≡ last_until (some e) es t
last_until-earlier before e es t h = rw (le→leb e.at t h) refl

-- Pruning leaves the status of every instant of the window alone.
until_old :
    (before : Option Event) (now t : ℕ) (es : List Event)
    → now ≤ t + window_secs
    → 1 ≤ partition_point (is_old now) es
    → last_until before es t ≡ last_until none es t
unfolding partition_point
until_old before now t [] h k = absurd (omega arith)
until_old before now t (e ∷ es) h k =
    let early : e.at ≤ t = ground arith in
    last_until-earlier before e es t early ∙ sym (last_until-earlier none e es t early)

drop-until :
    (now t n : ℕ) (es : List Event)
    → now ≤ t + window_secs
    → suc n ≤ partition_point (is_old now) es
    → last_until none (drop n es) t ≡ last_until none es t
unfolding partition_point
drop-until now t zero es h k = refl
drop-until now t (suc n) [] h k = refl
drop-until now t (suc n) (e ∷ es) h k =
    let rest : suc n ≤ partition_point (is_old now) es = ground arith in
    drop-until now t n es h rest
    ∙ sym (until_old (if leb e.at t then some e else none) now t es h (omega arith))

pub prune-until :
    (now t : ℕ) (es : List Event)
    → now ≤ t + window_secs
    → last_until none (prune now es) t ≡ last_until none es t
unfolding prune
prune-until now t es h = elim (Bool-cases (ltb 1 (partition_point (is_old now) es))) [
  | inl b ↦
      rw (b, prune) (drop-until now t (partition_point (is_old now) es - 1) es h (ground arith))
  | inr b ↦ rw (b, prune) refl
]

SortedFrom-le : (k l : ℕ) (es : List Event) → k ≤ l → SortedFrom l es → SortedFrom k es
SortedFrom-le k l [] h s = tt
SortedFrom-le k l (e ∷ es) h s = (omega arith, s.1)

drop-SortedFrom : (l n : ℕ) (es : List Event) → SortedFrom l es → SortedFrom l (drop n es)
drop-SortedFrom l zero es s = s
drop-SortedFrom l (suc n) [] s = s
drop-SortedFrom l (suc n) (e ∷ es) s = drop-SortedFrom l n es (SortedFrom-le l e.at es s.0 s.1)

pub prune-IsSorted : (now : ℕ) (es : List Event) → IsSorted es → IsSorted (prune now es)
unfolding prune
prune-IsSorted now es s = elim (Bool-cases (ltb 1 (partition_point (is_old now) es))) [
  | inl b ↦ rw (b, prune) (drop-SortedFrom 0 (partition_point (is_old now) es - 1) es s)
  | inr b ↦ rw (b, prune) s
]

pub prune-status :
    (now t : ℕ) (es : List Event)
    → now ≤ t + window_secs
    → status_at (prune now es) t ≡ status_at es t
prune-status now t es h = ap (λ o. Option.map (status t) o) (prune-until now t es h)
