-- ===== src/Uptime/Runs.antt =====
-- A history that is made by observations, and its summary.
use hifi_api_rust.Base.{
  ℕ, ◌+◌, ◌-◌, ◌≡◌, ◌≤◌, refl, sym, ap, ◌∙◌, List, [], ◌∷◌, Option, none, some, arith,
  if◌then◌else◌, leb, All,
}
use hifi_api_rust.Uptime.History.{Event, UptimeStatus, up, down, waiting, window_secs, observe}
use hifi_api_rust.Uptime.Status.{IsSorted, status_at}
use hifi_api_rust.Uptime.Observations.{
  Observation, AllUntil, AllUntil-le, reported, observe_in, observe-status, observe-All,
  observe-IsSorted,
}
use hifi_api_rust.Uptime.Summary.{summary}
use hifi_api_rust.Uptime.Tiles.{Tiles, seconds_of}
use hifi_api_rust.Uptime.Window.{summary_of}

unfoldable pub run : List Event → List Observation → List Event
unfolding observe
run events [] = events
run events (o ∷ os) = run (observe_in events o) os

-- What the last observation up to `t` reported.
abbrev pub told : Option UptimeStatus → List Observation → ℕ → Option UptimeStatus
told before [] t = before
told before (o ∷ os) t = told (if leb o.now t then some (reported o t) else before) os t

-- The observations are in the order of their times, none before `l`.
abbrev pub InOrder : ℕ → List Observation → Type 0
InOrder l [] = Unit
InOrder l (o ∷ os) = (l ≤ o.now) × InOrder o.now os

abbrev pub InWindow : ℕ → List Observation → Type 0
InWindow t os = All (λ o. o.now ≤ t + window_secs) os

within :
    (now t : ℕ) (os : List Observation)
    → All (λ o. o.now ≤ now) os
    → now ≤ t + window_secs
    → InWindow t os
within now t [] u h = tt
within now t (o ∷ os) u h = (omega arith, within now t os u.1 h)

run-told :
    (l t : ℕ) (os : List Observation) (es : List Event)
    → AllUntil l es
    → InOrder l os
    → InWindow t os
    → status_at (run es os) t ≡ told (status_at es t) os t
unfolding run
run-told l t [] es a i w = refl
run-told l t (o ∷ os) es a i w =
    let until = AllUntil-le l o.now es i.0 a in
    run-told o.now t os (observe_in es o) (observe-All o es until) i.1 w.1
    ∙ ap (λ st. told st os t) (observe-status o t es until w.0)

run-IsSorted : (os : List Observation) (es : List Event) → IsSorted es → IsSorted (run es os)
unfolding run
run-IsSorted [] es s = s
run-IsSorted (o ∷ os) es s = run-IsSorted os (observe_in es o) (observe-IsSorted o es s)

-- The summary shows what was observed: after any observations in the order of their times up to
-- `now`, from an empty history, the segments of the summary cover the seven days up to `now` end to
-- end, and each shows, at every second of it, what the last observation up to that second reported,
-- or nothing before the first; the counters count those seconds, and add up to the window.
pub run-summary :
    (now : ℕ) (os : List Observation)
    → InOrder 0 os
    → All (λ o. o.now ≤ now) os
    → window_secs ≤ now
    → let s = (summary now (run [] os)).1 in
      let f = told none os in
      Tiles f (now - window_secs) now s.segments
      × (s.up_seconds ≡ seconds_of f up (now - window_secs) window_secs)
      × (s.down_seconds ≡ seconds_of f down (now - window_secs) window_secs)
      × (s.waiting_seconds ≡ seconds_of f waiting (now - window_secs) window_secs)
      × (s.up_seconds + s.down_seconds + s.waiting_seconds + s.unknown_seconds ≡ window_secs)
      × (s.current_status ≡ f now)
run-summary now os i u le =
    summary_of (told none os) now (run [] os) (run-IsSorted os [] tt) le
      (λ t h. sym (run-told 0 t os [] tt i (within now t os u (omega arith))))
