-- ===== src/RequestLog/Percentile.antt =====
-- The latencies of src/request_log.rs. A product of a length and a fraction is a floating-point number:
-- its rounding up (`ceil`) or down to an index is an argument, a function of the length.
use hifi_api_rust.Base.{
  ℕ, zero, suc, ◌-◌, Bool, true, false, not, ◌||◌, List, [], ◌∷◌, Option, none, some, leb, ◌==◌,
  if◌then◌else◌, length, keep, map, min, max,
}
use hifi_api_rust.RequestLog.Entry.{LogEntry, search, catalog, traffic_of}
use hifi_api_rust.RequestLog.Log.{RequestLog}

-- `sort_unstable` on numbers, whose order of equal ones cannot be seen.
unfoldable pub insert_number : ℕ → List ℕ → List ℕ
insert_number x [] = x ∷ []
insert_number x (y ∷ ys) = let rest = insert_number x ys in if leb x y then x ∷ y ∷ ys else y ∷ rest

unfoldable pub sort_unstable : List ℕ → List ℕ
unfolding insert_number
sort_unstable [] = []
sort_unstable (x ∷ xs) = insert_number x (sort_unstable xs)

abbrev pub get_elem? : List ℕ → ℕ → Option ℕ
get_elem? [] i = none
get_elem? (x ∷ xs) zero = some x
get_elem? (x ∷ xs) (suc i) = get_elem? xs i

-- `percentile`
unfoldable pub percentile : (ℕ → ℕ) → List ℕ → Option ℕ
percentile ceil [] = none
percentile ceil (x ∷ xs) =
    let count = length (x ∷ xs) in get_elem? (x ∷ xs) (min (max (ceil count) 1) count - 1)

-- `pct` of `summary`
unfoldable pub pct : (ℕ → ℕ) → List ℕ → ℕ
pct floor [] = 0
pct floor (x ∷ xs) =
    let count = length (x ∷ xs) in
    elim (get_elem? (x ∷ xs) (min (floor count) (count - 1))) [ none ↦ 0 | some latency ↦ latency ]

-- `RequestLog::recent_p95_ms`
unfoldable pub recent_p95_ms : (ℕ → ℕ) → RequestLog → Option ℕ
unfolding sort_unstable percentile
recent_p95_ms ceil log = percentile ceil (sort_unstable (map (λ e. e.latency_ms) log.entries))

-- Only successful answers are timed, and queued ones are not.
abbrev pub is_timed : LogEntry → Bool
is_timed e = not (leb 400 e.status || e.status == 202)

abbrev pub is_search_entry : LogEntry → Bool
is_search_entry e = elim (traffic_of e) [ search ↦ true | _ ↦ false ]

abbrev pub is_catalog_entry : LogEntry → Bool
is_catalog_entry e = elim (traffic_of e) [ catalog ↦ true | _ ↦ false ]

pub record LatencySummary : Type 0 where
  pub count : ℕ
  pub p50_ms : Option ℕ
  pub p95_ms : Option ℕ
  pub p99_ms : Option ℕ

unfoldable pub summarize : (ceil50 ceil95 ceil99 : ℕ → ℕ) → List ℕ → LatencySummary
unfolding sort_unstable percentile
summarize ceil50 ceil95 ceil99 values =
    let sorted = sort_unstable values in
    record {
      count = length sorted;
      p50_ms = percentile ceil50 sorted;
      p95_ms = percentile ceil95 sorted;
      p99_ms = percentile ceil99 sorted;
    }

-- `RequestLog::latency_by_class`: search and catalog.
unfoldable pub latency_by_class :
    (ceil50 ceil95 ceil99 : ℕ → ℕ) → RequestLog → LatencySummary × LatencySummary
unfolding summarize traffic_of
latency_by_class ceil50 ceil95 ceil99 log =
    let timed = keep is_timed log.entries in
    (
      summarize ceil50 ceil95 ceil99 (map (λ e. e.latency_ms) (keep is_search_entry timed)),
      summarize ceil50 ceil95 ceil99 (map (λ e. e.latency_ms) (keep is_catalog_entry timed)),
    )
