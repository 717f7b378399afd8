-- ===== src/Uptime/Observations.antt =====
-- What a sequence of observations makes of a history.
use mathlib.Core.Option
use hifi_api_rust.Base.{
  ℕ, zero, suc, ◌+◌, ◌-◌, ◌≡◌, ◌≤◌, refl, ap, ◌∙◌, Bool, true, List, [], ◌∷◌, ◌++◌, Option, none,
  some, arith, if◌then◌else◌, Bool-cases, inl, inr, leb, ltb, drop, All, ◌&&◌, leb→le, leb→le,
}
use hifi_api_rust.Uptime.History.{
  Event, UptimeStatus, up, down, waiting, status, prune, window_secs, partition_point, is_old, last,
  observe, observe_change, repeats, has_expired, not_before,
}
use hifi_api_rust.Uptime.Status.{
  IsSorted, SortedFrom, last_until, status_at, prune-IsSorted, prune-status,
}

-- A call of `observe`.
pub record Observation : Type 0 where
  pub now : ℕ
  pub active : Bool
  pub token_ready : Bool
  pub token_expires_at : Option ℕ

-- What an observation says of a later instant.
abbrev pub reported : Observation → ℕ → UptimeStatus
reported o t =
    if o.active
    then (if o.token_ready
        then (if has_expired t o.token_expires_at then waiting else up)
        else waiting)
    else down

abbrev pub AllUntil : ℕ → List Event → Type 0
AllUntil t events = All (λ e. e.at ≤ t) events

last_until-append :
    (before : Option Event) (e : Event) (es : List Event) (t : ℕ)
    → last_until before (es ++ e ∷ []) t ≡ (if leb e.at t then some e else last_until before es t)
last_until-append before e [] t = refl
last_until-append before e (x ∷ es) t =
    last_until-append (if leb x.at t then some x else before) e es t

abbrev otherwise : Option Event → Option Event → Option Event
otherwise none before = before
otherwise (some e) before = some e

last_until-end :
    (before : Option Event) (es : List Event) (t : ℕ)
    → AllUntil t es
    → last_until before es t ≡ otherwise (last es) before
last_until-end before [] t a = refl
last_until-end before (x ∷ es) t a = ground (arith, last_until-end (some x) es t a.1)

drop-All : (t n : ℕ) (es : List Event) → AllUntil t es → AllUntil t (drop n es)
drop-All t zero es a = a
drop-All t (suc n) [] a = a
drop-All t (suc n) (e ∷ es) a = drop-All t n es a.1

prune-All : (now t : ℕ) (es : List Event) → AllUntil t es → AllUntil t (prune now es)
unfolding prune
prune-All now t es a = elim (Bool-cases (ltb 1 (partition_point (is_old now) es))) [
  | inl b ↦ rw (b, prune) (drop-All t (partition_point (is_old now) es - 1) es a)
  | inr b ↦ rw (b, prune) a
]

append-All :
    (t : ℕ) (e : Event) (es : List Event) → e.at ≤ t → AllUntil t es → AllUntil t (es ++ e ∷ [])
append-All t e [] h a = (h, tt)
append-All t e (x ∷ es) h a = (a.0, append-All t e es h a.1)

abbrev end_of : ℕ → Option Event → ℕ
end_of l none = l
end_of l (some e) = e.at

SortedFrom-end : (l : ℕ) (es : List Event) → SortedFrom l es → l ≤ end_of l (last es)
SortedFrom-end l [] s = omega arith
SortedFrom-end l (x ∷ es) s = ground (arith, SortedFrom-end x.at es s.1)

SortedFrom-append :
    (l : ℕ) (e : Event) (es : List Event)
    → SortedFrom l es
    → l ≤ e.at
    → not_before 0 (last es) ≤ e.at
    → SortedFrom l (es ++ e ∷ [])
SortedFrom-append l e [] s h k = (h, tt)
SortedFrom-append l e (x ∷ es) s h k = (
  s.0,
  SortedFrom-append x.at e es s.1 (ground (arith, SortedFrom-end x.at es s.1)) (ground arith),
)

not_before-until : (now : ℕ) (es : List Event) → AllUntil now es → not_before now (last es) ≡ now
not_before-until now [] a = refl
not_before-until now (x ∷ es) a = ground (arith, not_before-until now es a.1)

-- The event that an observation appends.
abbrev seen : Bool → Bool → Option ℕ → ℕ → Event
seen active ready expires at = record {
  at = at;
  active = active;
  token_ready = ready;
  token_expires_at = expires;
}

repeats-status :
    (active ready : Bool) (expires : Option ℕ) (at t : ℕ) (o : Option Event)
    → repeats active ready expires o ≡ true
    → Option.map (status t) o ≡ some (status t (seen active ready expires at))
unfolding status
repeats-status active ready expires at t none h = cc
repeats-status active ready expires at t (some e) h = ground arith

pub AllUntil-le : (m n : ℕ) (es : List Event) → m ≤ n → AllUntil m es → AllUntil n es
AllUntil-le m n [] h a = tt
AllUntil-le m n (e ∷ es) h a = (omega arith, AllUntil-le m n es h a.1)

-- After the last event, an event that repeats an observation says what the observation says.
repeated :
    (active ready : Bool) (expires : Option ℕ) (now t : ℕ) (es : List Event)
    → AllUntil t es
    → repeats active ready expires (last es) ≡ true
    → status_at es t ≡ some (status t (seen active ready expires now))
repeated active ready expires now t es a same =
    let e : last_until none es t ≡ last es = ground (arith, last_until-end none es t a) in
    ap (λ o. Option.map (status t) o) e ∙ repeats-status active ready expires now t (last es) same

appended :
    (e : Event) (t : ℕ) (es : List Event)
    → status_at (es ++ e ∷ []) t ≡ (if leb e.at t then some (status t e) else status_at es t)
appended e t es = rw (last_until-append none e es t) (ground arith)

observe_change-status :
    (active ready : Bool) (expires : Option ℕ) (now t : ℕ) (es : List Event)
    → AllUntil now es
    → status_at (observe_change active ready expires now es) t
      ≡ (if leb now t then some (status t (seen active ready expires now)) else status_at es t)
unfolding observe_change
observe_change-status active ready expires now t es a =
    elim (Bool-cases (repeats active ready expires (last es))) [
      | inl same ↦ elim (Bool-cases (leb now t)) [
        | inl later ↦
            rw (same, later, observe_change)
              (repeated active ready expires now t es (AllUntil-le now t es (leb→le now t later) a)
                same)
        | inr earlier ↦ rw (same, earlier, observe_change) refl
      ]
      | inr new ↦
          rw (new, observe_change, not_before-until now es a)
            (appended (seen active ready expires now) t es)
    ]

observe_change-All :
    (active ready : Bool) (expires : Option ℕ) (now : ℕ) (es : List Event)
    → AllUntil now es
    → AllUntil now (observe_change active ready expires now es)
unfolding observe_change
observe_change-All active ready expires now es a =
    elim (Bool-cases (repeats active ready expires (last es))) [
      | inl same ↦ rw (same, observe_change) a
      | inr new ↦
          rw (new, observe_change, not_before-until now es a)
            (append-All now (seen active ready expires now) es (omega arith) a)
    ]

observe_change-IsSorted :
    (active ready : Bool) (expires : Option ℕ) (now : ℕ) (es : List Event)
    → IsSorted es
    → IsSorted (observe_change active ready expires now es)
unfolding observe_change
observe_change-IsSorted active ready expires now es s =
    elim (Bool-cases (repeats active ready expires (last es))) [
      | inl same ↦ rw (same, observe_change) s
      | inr new ↦
          rw (new, observe_change)
            (SortedFrom-append 0 (seen active ready expires (not_before now (last es))) es s
              (omega arith) (ground arith))
    ]

-- `observe` normalises the token's state, which the status does not show.
seen-status :
    (o : Observation) (t : ℕ)
    → let ready = o.active && o.token_ready in
      status t (seen o.active ready (if ready then o.token_expires_at else none) o.now)
      ≡ reported o t
unfolding status
seen-status o t = ground arith

abbrev pub observe_in : List Event → Observation → List Event
observe_in events o = observe o.active o.token_ready o.token_expires_at o.now events

pub observe-status :
    (o : Observation) (t : ℕ) (es : List Event)
    → AllUntil o.now es
    → o.now ≤ t + window_secs
    → status_at (observe_in es o) t ≡ (if leb o.now t then some (reported o t) else status_at es t)
unfolding observe
observe-status o t es a w =
    let ready = o.active && o.token_ready in
    rw
      (
        observe_change-status o.active ready (if ready then o.token_expires_at else none) o.now t
            (prune o.now es) (prune-All o.now o.now es a),
        seen-status o t,
        prune-status o.now t es w,
      )
      refl

pub observe-All :
    (o : Observation) (es : List Event) → AllUntil o.now es → AllUntil o.now (observe_in es o)
unfolding observe
observe-All o es a =
    let ready = o.active && o.token_ready in
    observe_change-All o.active ready (if ready then o.token_expires_at else none) o.now
      (prune o.now es) (prune-All o.now o.now es a)

pub observe-IsSorted :
    (o : Observation) (es : List Event) → IsSorted es → IsSorted (observe_in es o)
unfolding observe
observe-IsSorted o es s =
    let ready = o.active && o.token_ready in
    observe_change-IsSorted o.active ready (if ready then o.token_expires_at else none) o.now
      (prune o.now es) (prune-IsSorted o.now es s)
