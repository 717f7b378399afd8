-- ===== src/Examples/Uptime.antt =====
-- The uptime summary at a history of three observations, and the source's own test of a partial one.
use hifi_api_rust.Base.{ℕ, ◌+◌, ◌-◌, ◌≡◌, refl, true, false, List, [], ◌∷◌, none, some, arith}
use hifi_api_rust.Uptime.History.{Event, up, down, waiting, window_secs}
use hifi_api_rust.Uptime.Summary.{summary}
use hifi_api_rust.Uptime.Observations.{Observation}
use hifi_api_rust.Uptime.Runs.{run, told, run-summary}
use hifi_api_rust.Uptime.Tiles.{Tiles, seconds_of}

abbrev noon : ℕ
noon = window_secs + 1000

-- Ready with a token for 50 seconds, then switched off.
abbrev observations : List Observation
observations =
    record {
      now = noon - 300;
      active = true;
      token_ready = true;
      token_expires_at = some (noon - 250);
    }
    ∷ record { now = noon - 200; active = true; token_ready = true; token_expires_at = none }
    ∷ record { now = noon - 100; active = false; token_ready = true; token_expires_at = none }
    ∷ []

run-summary_example :
    let s = (summary noon (run [] observations)).1 in
    let f = told none observations in
    Tiles f (noon - window_secs) noon s.segments
    × (s.up_seconds ≡ seconds_of f up (noon - window_secs) window_secs)
    × (s.down_seconds ≡ seconds_of f down (noon - window_secs) window_secs)
    × (s.waiting_seconds ≡ seconds_of f waiting (noon - window_secs) window_secs)
    × (s.up_seconds + s.down_seconds + s.waiting_seconds + s.unknown_seconds ≡ window_secs)
    × (s.current_status ≡ f noon)
run-summary_example = run-summary noon observations (omega arith) (omega arith) (omega arith)

-- `partial_history_does_not_invent_uptime`
abbrev partial : List Event
partial =
    record { at = noon - 300; active = true; token_ready = true; token_expires_at = none }
    ∷ record { at = noon - 100; active = false; token_ready = false; token_expires_at = none }
    ∷ []

partial-up : (summary noon partial).1.up_seconds ≡ 200
unfolding summary
partial-up = refl

partial-unknown : (summary noon partial).1.unknown_seconds ≡ window_secs - 300
unfolding summary
partial-unknown = refl

observed-waiting : (summary noon (run [] observations)).1.waiting_seconds ≡ 50
unfolding summary run
observed-waiting = refl
