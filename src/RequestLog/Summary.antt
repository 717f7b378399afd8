-- ===== src/RequestLog/Summary.antt =====
-- The counts and the slowest requests of `RequestLog::summary` in src/request_log.rs.
use hifi_api_rust.Base.{
  ℕ, ◌+◌, Bool, true, false, ◌&&◌, ◌||◌, List, [], ◌∷◌, leb, ◌==◌, if◌then◌else◌, length, take, any,
  keep,
}
use hifi_api_rust.Base.Bytes.{same}
use hifi_api_rust.RequestLog.Entry.{LogEntry}
use hifi_api_rust.RequestLog.Log.{RequestLog}

pub record Outcomes : Type 0 where
  pub total : ℕ
  pub errors : ℕ
  pub user_errors : ℕ
  pub upstream_errors : ℕ

-- One round of the loop over the entries.
unfoldable pub note_outcome : LogEntry → Outcomes → Outcomes
note_outcome e o =
    if leb 400 e.status
    then (if e.status == 429 || leb 500 e.status
        then record o { errors = o.errors + 1; upstream_errors = o.upstream_errors + 1 }
        else record o { errors = o.errors + 1; user_errors = o.user_errors + 1 })
    else o

unfoldable pub note_outcomes : List LogEntry → Outcomes → Outcomes
unfolding note_outcome
note_outcomes [] o = o
note_outcomes (e ∷ es) o = note_outcomes es (note_outcome e o)

unfoldable pub summary_outcomes : RequestLog → Outcomes
unfolding note_outcomes
summary_outcomes log =
    note_outcomes log.entries
      (record { total = length log.entries; errors = 0; user_errors = 0; upstream_errors = 0 })

-- `RequestLog::outcome_counts`
unfoldable pub outcome_counts : RequestLog → ℕ × ℕ
outcome_counts log = (length log.entries, length (keep (λ e. leb 400 e.status) log.entries))

-- `sort_by` on descending latency, which is stable.
unfoldable pub insert_slow : LogEntry → List LogEntry → List LogEntry
insert_slow e [] = e ∷ []
insert_slow e (s ∷ ss) =
    let rest = insert_slow e ss in if leb s.latency_ms e.latency_ms then e ∷ s ∷ ss else s ∷ rest

unfoldable pub sort_slow : List LogEntry → List LogEntry
unfolding insert_slow
sort_slow [] = []
sort_slow (e ∷ es) = insert_slow e (sort_slow es)

abbrev pub same_request : LogEntry → LogEntry → Bool
same_request a b = same a.path b.path && same a.detail b.detail

-- The filter on the keys that are new to `seen`.
unfoldable pub first_of_each : List LogEntry → List LogEntry → List LogEntry
first_of_each seen [] = []
first_of_each seen (e ∷ es) = elim (any (same_request e) seen) [
  | true ↦ first_of_each seen es
  | false ↦ e ∷ first_of_each (e ∷ seen) es
]

unfoldable pub slowest : RequestLog → List LogEntry
unfolding sort_slow first_of_each
slowest log = take 5 (first_of_each [] (sort_slow log.entries))
