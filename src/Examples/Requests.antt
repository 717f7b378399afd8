-- ===== src/Examples/Requests.antt =====
-- src/request_log.rs at concrete inputs.
use Prim.Native.String.{String}
use hifi_api_rust.Base.{
  ℕ, ◌+◌, ◌*◌, ◌-◌, ◌/◌, ◌&&◌, ◌≤◌, ◌<◌, ◌≡◌, refl, ◌⊎◌, inl, inr, false, List, [], ◌∷◌, Option,
  none, some, arith, leb, ltb, ◌==◌, if◌then◌else◌, length, take, All,
}
use hifi_api_rust.Base.Bytes.{codes}
use hifi_api_rust.Base.Dict.{get}
use hifi_api_rust.Lockout.{v4, ip_eq, second}
use hifi_api_rust.ScannerGuard
use hifi_api_rust.ScannerGuard.Paths.{segments, split}
use hifi_api_rust.RequestLog.Entry.{
  LogEntry, no_counts, counts_of, traffic_of, class_of, add_counts, upstream,
}
use hifi_api_rust.RequestLog.Log.{
  RequestLog, empty_log, record_entry, record_all, count_in, sum_buckets, rate_of, request_rates_at,
  rate_window_seconds,
}
use hifi_api_rust.RequestLog.Window.{IsRate, sum_requests, request_rates_at-exact}
use hifi_api_rust.RequestLog.History.{history-exact, history-loses_oldest}
use hifi_api_rust.RequestLog.Percentile.{percentile, sort_unstable}
use hifi_api_rust.RequestLog.Ranks.{count, rank, percentile-rank}
use hifi_api_rust.RequestLog.Summary.{slowest}
use hifi_api_rust.RequestLog.Slowest.{IsListed, slowest-covers}
use hifi_api_rust.RequestLog.Paths.{normalize_path, should_log_path, normalize_path-stable}
use hifi_api_rust.RequestLog.Handler.{Answer, Incoming, Middleware, log_requests}
use hifi_api_rust.RequestLog.Blocked.{SameRates, log_requests-blocked}
use hifi_api_rust.Playback.Job.{LoggedAccount}
use hifi_api_rust.Lockout.Invariant.{IsValid}
use hifi_api_rust.Lockout.Ban.{HasBan}

abbrev served : ℕ → String → LogEntry
served ts path = record {
  ts = ts;
  method = "GET";
  path = codes path;
  detail = [];
  status = 200;
  latency_ms = 40;
  client_ip = "127.0.0.1";
  cache = "";
  accounts = record { id = "a"; label = "A"; role = "playback" } ∷ [];
  rejected = false;
  error = "";
}

abbrev requests : List LogEntry
requests = served 1_000 "/search" ∷ served 1_000 "/track/1" ∷ served 1_058 "/search" ∷ []

rate_of_search : (request_rates_at 1_060 (record_all requests empty_log)).search.window_sum ≡ 1
unfolding request_rates_at record_all record_entry rate_of sum_buckets count_in counts_of traffic_of
    class_of add_counts segments split
rate_of_search = refl

request_rates_at-exact_example :
    let r = request_rates_at 1_060 (record_all requests empty_log) in
    IsRate upstream 1_060 requests r.all
    × IsRate (λ c. c.playback) 1_060 requests r.playback
    × IsRate (λ c. c.search) 1_060 requests r.search
    × IsRate (λ c. c.catalog) 1_060 requests r.catalog
    × IsRate (λ c. c.cached) 1_060 requests r.cached
    × (r.throttled_60s
        ≡ (sum_requests
            (λ s. ltb 1_060 (s + rate_window_seconds) && leb s 1_060)
            requests).throttled)
request_rates_at-exact_example = request_rates_at-exact 1_060 requests (omega arith)

history-exact_example :
    (request_rates_at 1_060 (record_all requests empty_log)).history 0
    ≡ sum_requests (λ second. second == 1_060 - rate_window_seconds + 0) requests
history-exact_example =
    history-exact 1_060 0 requests (omega arith) (omega arith) (inr (omega arith))

history-loses_oldest_example :
    (request_rates_at 1_060
        (record_entry (served 1_060 "/search") (record_all requests empty_log))).history
      0
    ≡ no_counts
history-loses_oldest_example =
    history-loses_oldest 1_060 (served 1_060 "/search") (record_all requests empty_log)
      (omega arith) refl

abbrev latencies : List ℕ
latencies = 30 ∷ 10 ∷ 20 ∷ 40 ∷ []

-- Half of the length, rounded up.
abbrev half : ℕ → ℕ
half n = (n + 1) / 2

percentile-rank_example :
    (v : ℕ) × (percentile half (sort_unstable latencies) ≡ some v)
    × (count (λ y. ltb y v) latencies < rank half (length latencies))
    × (rank half (length latencies) ≤ count (λ y. leb y v) latencies)
percentile-rank_example = percentile-rank half latencies (omega arith)

abbrev full_log : RequestLog
full_log = record { entries = requests; requests_per_second = []; total_requests = 3 }

slowest-covers_example :
    IsListed (served 1_000 "/search") (slowest full_log)
    ⊎ ((length (slowest full_log) ≡ 5) × All (λ t. 40 ≤ t.latency_ms) (slowest full_log))
slowest-covers_example = slowest-covers full_log (served 1_000 "/search") (inl refl)

normalize_path-stable_example :
    (segments (normalize_path (codes "/track//7/info"))
      ≡ take 2 (segments (codes "/track//7/info")))
    × (normalize_path (normalize_path (codes "/track//7/info"))
        ≡ normalize_path (codes "/track//7/info"))
normalize_path-stable_example = normalize_path-stable (codes "/track//7/info")

abbrev plain : List ℕ → List ℕ
plain s = s

abbrev incoming : ℕ → Incoming
incoming start = record {
  method = "GET";
  path = codes "/search";
  query = none;
  ip = v4 9;
  ip_text = "0.0.0.9";
  start = start;
  ts = 1_060;
  latency_ms = 1;
}

abbrev none_parsed : List ℕ → List (List ℕ × List ℕ)
none_parsed query = []

abbrev no_json : String → Option String
no_json text = none

abbrev as_is : String → String
as_is text = text

abbrev answer : Answer
answer = record { status = 200; cache = ""; rejected = false; size = none; body = none }

-- The client at `v4 9` is banned until the second 902.
abbrev middleware : Middleware
middleware = record {
  scanner_guard = record {
    ips =
        (v4 9, record { marks = []; banned_until = some (902 * second); last_seen = 2 * second })
        ∷ [];
    last_cleanup = 0;
  };
  request_log = record_all requests empty_log;
}

middleware-IsValid : IsValid ScannerGuard.probe_policy middleware.scanner_guard
unfolding get ip_eq
middleware-IsValid = record {
  distinct = (refl, tt);
  bounded = omega arith;
  sound = λ k a e. ground arith;
}

middleware-HasBan : HasBan (v4 9) (902 * second) middleware.scanner_guard
unfolding get ip_eq
middleware-HasBan = record {
  activity = record { marks = []; banned_until = some (902 * second); last_seen = 2 * second };
  listed = refl;
  banned = refl;
}

-- The rest of the server counts the requests that reach it.
abbrev counter : ℕ → ℕ × (Answer × List LoggedAccount)
counter n = (n + 1, (answer, []))

log_requests-blocked_example :
    let r =
      log_requests plain none_parsed no_json as_is (incoming (3 * second)) counter 5 middleware in
    (r.0 ≡ 5)
    × (r.2.status ≡ 403)
    × (r.1.request_log.total_requests
        ≡ middleware.request_log.total_requests
          + (if should_log_path (codes "/search") then 1 else 0))
    × ((now : ℕ) → 1_060 ≤ now → SameRates now middleware.request_log r.1.request_log)
log_requests-blocked_example =
    log_requests-blocked plain none_parsed no_json as_is (incoming (3 * second)) counter 5
      middleware (902 * second) middleware-IsValid middleware-HasBan (omega arith) (omega arith)
