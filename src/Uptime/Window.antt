-- ===== src/Uptime/Window.antt =====
-- The summary against the history that it shows.
use mathlib.Core.Option
use hifi_api_rust.Base.{
  ℕ, zero, suc, ◌+◌, ◌-◌, ◌≡◌, ◌≤◌, refl, sym, ap, ◌∙◌, List, [], ◌∷◌, Option, none, some, arith,
  Bool-cases, inl, inr, ltb, subst, ltb→lt,
}
use hifi_api_rust.Uptime.History.{
  Event, UptimeStatus, up, down, waiting, status, prune, window_secs,
}
use hifi_api_rust.Uptime.Summary.{Walk, walk, advance, timeline, summarize, summary}
use hifi_api_rust.Uptime.Status.{
  IsSorted, SortedFrom, last_until, status_at, last_until-later, last_until-earlier, prune-IsSorted,
  prune-status, prune-until,
}
use hifi_api_rust.Uptime.Tiles.{Tiles, Follows, append_interval-Tiles, seconds_in-Tiles, seconds_of}

-- What the loop keeps: its segments cover the window up to the cursor, and from there on the events
-- that are left decide.
abbrev Covers : (ℕ → Option UptimeStatus) → ℕ → ℕ → List Event → Walk → Type 0
Covers f start now es w =
    Tiles f start w.cursor w.segments
    × (w.cursor ≤ now)
    × ((t : ℕ) → w.cursor ≤ t → f t ≡ Option.map (status t) (last_until w.previous es t))

advance-Covers :
    (f : ℕ → Option UptimeStatus) (start now l : ℕ) (e : Event) (es : List Event) (w : Walk)
    → SortedFrom l (e ∷ es)
    → e.at ≤ now
    → Covers f start now (e ∷ es) w
    → Covers f start now es (advance e w)
unfolding advance
advance-Covers f start now l e es w s le h = elim (Bool-cases (ltb w.cursor e.at)) [
  | inl b ↦
      rw (b, advance)
        (
          append_interval-Tiles f start w.cursor e.at w.segments w.previous h.0
              (ltb→lt w.cursor e.at b)
              (λ t p q.
                h.2 t p
                ∙ ap (λ o. Option.map (status t) o)
                    (last_until-later w.previous e.at t (e ∷ es) (omega arith, s.1) q)),
          le,
          λ t p.
              h.2 t (ground arith)
              ∙ ap (λ o. Option.map (status t) o) (last_until-earlier w.previous e es t p),
        )
  | inr b ↦
      rw (b, advance)
        (
          h.0,
          h.1,
          λ t p.
              h.2 t p
              ∙ ap (λ o. Option.map (status t) o)
                  (last_until-earlier w.previous e es t (ground arith)),
        )
]

advance_previous : (e : Event) (w : Walk) → (advance e w).previous ≡ some e
unfolding advance
advance_previous e w = ground arith

walk-Covers :
    (f : ℕ → Option UptimeStatus) (start now l : ℕ) (es : List Event) (w : Walk)
    → SortedFrom l es
    → Covers f start now es w
    → let v = walk now es w in
      Tiles f start v.cursor v.segments
      × (v.cursor ≤ now)
      × Follows f v.previous v.cursor now
      × (v.previous ≡ last_until w.previous es now)
unfolding walk
walk-Covers f start now l [] w s h = (h.0, h.1, λ t p q. h.2 t p, refl)
walk-Covers f start now l (e ∷ es) w s h = elim (Bool-cases (ltb now e.at)) [
  | inl b ↦
      rw (b, walk)
        (
          h.0,
          h.1,
          λ t p q.
              h.2 t p
              ∙ ap (λ o. Option.map (status t) o)
                  (last_until-later w.previous e.at t (e ∷ es) (omega arith, s.1) (ground arith)),
          sym (
              last_until-later w.previous e.at now (e ∷ es) (omega arith, s.1) (ltb→lt now e.at b)),
        )
  | inr b ↦
      let le : e.at ≤ now = ground arith in
      let c =
        walk-Covers f start now e.at es (advance e w) s.1
          (advance-Covers f start now l e es w s le h) in
      rw (b, walk)
        (
          c.0,
          c.1,
          c.2,
          c.3
              ∙ ap (λ o. last_until o es now) (advance_previous e w)
              ∙ sym (last_until-earlier w.previous e es now le),
        )
]

seconds_of-le :
    (f : ℕ → Option UptimeStatus) (a n : ℕ)
    → seconds_of f up a n + seconds_of f down a n + seconds_of f waiting a n ≤ n
unfolding seconds_of
seconds_of-le f a zero = omega arith
seconds_of-le f a (suc n) = ground (arith, seconds_of-le f (suc a) n)

timeline-Tiles :
    (f : ℕ → Option UptimeStatus) (start now : ℕ) (es : List Event)
    → IsSorted es
    → start ≤ now
    → ((t : ℕ) → start ≤ t → f t ≡ status_at es t)
    → Tiles f start now (timeline start now es)
      × ((walk now es (record { segments = []; cursor = start; previous = none })).previous
          ≡ last_until none es now)
unfolding timeline
timeline-Tiles f start now es s le same =
    let w : Walk = record { segments = []; cursor = start; previous = none } in
    let c = walk-Covers f start now 0 es w s (refl, le, same) in
    let v = walk now es w in
    elim (Bool-cases (ltb v.cursor now)) [
      | inl b ↦
          rw (b, timeline)
            (
              append_interval-Tiles f start v.cursor now v.segments v.previous c.0
                  (ltb→lt v.cursor now b) c.2,
              c.3,
            )
      | inr b ↦
          let full : v.cursor ≡ now = ground (arith, c.1) in
          rw (b, timeline) (subst (λ k. Tiles f start k v.segments) full c.0, c.3)
    ]

-- The summary of events in order shows any `f` that gives the same status through the window.
pub summary_of :
    (f : ℕ → Option UptimeStatus) (now : ℕ) (events : List Event)
    → IsSorted events
    → window_secs ≤ now
    → ((t : ℕ) → now - window_secs ≤ t → f t ≡ status_at events t)
    → let s = (summary now events).1 in
      Tiles f (now - window_secs) now s.segments
      × (s.up_seconds ≡ seconds_of f up (now - window_secs) window_secs)
      × (s.down_seconds ≡ seconds_of f down (now - window_secs) window_secs)
      × (s.waiting_seconds ≡ seconds_of f waiting (now - window_secs) window_secs)
      × (s.up_seconds + s.down_seconds + s.waiting_seconds + s.unknown_seconds ≡ window_secs)
      × (s.current_status ≡ f now)
unfolding summary summarize
summary_of f now events s le same =
    let start = now - window_secs in
    let whole : now ≡ start + window_secs = omega arith in
    let c =
      timeline-Tiles f start now (prune now events) (prune-IsSorted now events s) (omega arith)
        (λ t h. same t h ∙ sym (prune-status now t events (omega arith))) in
    let counted = λ (st : UptimeStatus).
      seconds_in-Tiles f st start window_secs (timeline start now (prune now events))
        (subst (λ k. Tiles f start k (timeline start now (prune now events))) whole c.0) in
    (
      c.0,
      counted up,
      counted down,
      counted waiting,
      omega (arith, counted up, counted down, counted waiting, seconds_of-le f start window_secs),
      ap (λ o. Option.map (status now) o) (c.1 ∙ prune-until now now events (omega arith))
          ∙ sym (same now (omega arith)),
    )
