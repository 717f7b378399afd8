-- ===== src/Uptime/Summary.antt =====
-- `AccountUptime::summary` of src/account_uptime.rs: the window as a list of segments.
use mathlib.Core.Option
use hifi_api_rust.Base.{
  ℕ, ◌+◌, ◌-◌, ◌*◌, Bool, true, false, ◌&&◌, List, [], ◌∷◌, Option, none, some, ltb, ◌==◌,
  if◌then◌else◌,
}
use hifi_api_rust.Uptime.History.{
  Event, UptimeStatus, up, down, waiting, status, prune, window_secs,
}

pub record UptimeSegment : Type 0 where
  pub start : ℕ
  pub end : ℕ
  pub active : Option Bool
  pub status : Option UptimeStatus

abbrev pub same_status : Option UptimeStatus → Option UptimeStatus → Bool
same_status none none = true
same_status (some up) (some up) = true
same_status (some down) (some down) = true
same_status (some waiting) (some waiting) = true
same_status _ _ = false

-- `AccountUptime::append_segment`; the last segment grows where it ends at `start` in this status.
unfoldable pub append_segment : List UptimeSegment → ℕ → ℕ → Option Event → List UptimeSegment
append_segment [] start end event =
    record {
      start = start;
      end = end;
      active = Option.map (λ e. e.active) event;
      status = Option.map (status start) event;
    }
    ∷ []
append_segment (s ∷ []) start end event =
    if s.end == start && same_status s.status (Option.map (status start) event)
    then record s { end = end } ∷ []
    else s
      ∷ record {
        start = start;
        end = end;
        active = Option.map (λ e. e.active) event;
        status = Option.map (status start) event;
      }
      ∷ []
append_segment (s ∷ t ∷ r) start end event = s ∷ append_segment (t ∷ r) start end event

-- When the token of an event that is active and ready ends inside an interval.
unfoldable pub expiry_inside : ℕ → ℕ → Option Event → Option ℕ
expiry_inside start end none = none
expiry_inside start end (some e) =
    if e.active && e.token_ready
    then (elim e.token_expires_at [
      | none ↦ none
      | some expires ↦ if ltb start expires && ltb expires end then some expires else none
    ])
    else none

-- `AccountUptime::append_interval`
unfoldable pub append_interval : List UptimeSegment → ℕ → ℕ → Option Event → List UptimeSegment
unfolding append_segment expiry_inside
append_interval segments start end event = elim (expiry_inside start end event) [
  | none ↦ append_segment segments start end event
  | some expires ↦ append_segment (append_segment segments start expires event) expires end event
]

-- The variables of the loop.
pub record Walk : Type 0 where
  pub segments : List UptimeSegment
  pub cursor : ℕ
  pub previous : Option Event

-- One event of the loop that does not break.
unfoldable pub advance : Event → Walk → Walk
unfolding append_interval
advance e w =
    if ltb w.cursor e.at
    then record {
      segments = append_interval w.segments w.cursor e.at w.previous;
      cursor = e.at;
      previous = some e;
    }
    else record w { previous = some e }

unfoldable pub walk : ℕ → List Event → Walk → Walk
unfolding advance
walk now [] w = w
walk now (e ∷ es) w = elim (ltb now e.at) [ true ↦ w | false ↦ walk now es (advance e w) ]

-- The loop and the interval from the last event to `now`.
unfoldable pub timeline : ℕ → ℕ → List Event → List UptimeSegment
unfolding walk append_interval
timeline start now events =
    let w = walk now events (record { segments = []; cursor = start; previous = none }) in
    if ltb w.cursor now then append_interval w.segments w.cursor now w.previous else w.segments

-- The seconds of the segments in one status.
unfoldable pub seconds_in : UptimeStatus → List UptimeSegment → ℕ
seconds_in st [] = 0
seconds_in st (s ∷ r) =
    (if same_status s.status (some st) then s.end - s.start else 0) + seconds_in st r

-- `percentage` is a float in the source: here its numerator and its denominator.
pub record UptimeSummary : Type 0 where
  pub current_status : Option UptimeStatus
  pub window_start : ℕ
  pub window_end : ℕ
  pub up_seconds : ℕ
  pub down_seconds : ℕ
  pub waiting_seconds : ℕ
  pub unknown_seconds : ℕ
  pub percentage : Option (ℕ × ℕ)
  pub segments : List UptimeSegment

-- The rest of `AccountUptime::summary`, on the events that `prune` leaves.
unfoldable pub summarize : ℕ → List Event → UptimeSummary
unfolding timeline seconds_in status
summarize now events =
    let start = now - window_secs in
    let segments = timeline start now events in
    let ups = seconds_in up segments in
    let downs = seconds_in down segments in
    let waits = seconds_in waiting segments in
    record {
      current_status =
          Option.map (status now)
            (walk now events (record { segments = []; cursor = start; previous = none })).previous;
      window_start = start;
      window_end = now;
      up_seconds = ups;
      down_seconds = downs;
      waiting_seconds = waits;
      unknown_seconds = window_secs - ups - downs - waits;
      percentage =
          if ltb 0 (ups + downs + waits) then some (ups * 100, ups + downs + waits) else none;
      segments = segments;
    }

-- `AccountUptime::summary`: the events that stay, and the summary.
unfoldable pub summary : ℕ → List Event → List Event × UptimeSummary
unfolding prune summarize
summary now events = (prune now events, summarize now (prune now events))
