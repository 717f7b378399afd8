-- ===== src/RequestLog/Log.antt =====
-- `RequestLog` of src/request_log.rs: the last requests, the counts of the last minute, and the total.
use hifi_api_rust.Base.{
  ℕ, ◌+◌, ◌-◌, Bool, ◌&&◌, List, [], ◌∷◌, ◌++◌, leb, ltb, ◌==◌, if◌then◌else◌, length, drop, keep,
  max,
}
use hifi_api_rust.RequestLog.Entry.{
  LogEntry, SecondCounts, no_counts, counts_of, add_counts, upstream,
}

abbrev pub max_entries : ℕ
max_entries = 5_000

abbrev pub rate_window_seconds : ℕ
rate_window_seconds = 60

abbrev pub rate_now_seconds : ℕ
rate_now_seconds = 5

abbrev pub Bucket : Type 0
Bucket = ℕ × SecondCounts

-- Oldest first.
pub record RequestLog : Type 0 where
  pub entries : List LogEntry
  pub requests_per_second : List Bucket
  pub total_requests : ℕ

abbrev pub empty_log : RequestLog
empty_log = record { entries = []; requests_per_second = []; total_requests = 0 }

-- The second of the entry gets its counts, as the last bucket if it has none yet.
unfoldable pub count_in : ℕ → SecondCounts → List Bucket → List Bucket
unfolding add_counts
count_in timestamp counted [] = (timestamp, counted) ∷ []
count_in timestamp counted ((second, counts) ∷ rest) =
    let others = count_in timestamp counted rest in
    if second == timestamp
    then (second, add_counts counts counted) ∷ rest
    else (second, counts) ∷ others

-- `second > timestamp - RATE_WINDOW_SECONDS`
abbrev pub is_kept : ℕ → Bucket → Bool
is_kept timestamp b = ltb timestamp (b.0 + rate_window_seconds)

-- `RequestLog::record`
unfoldable pub record_entry : LogEntry → RequestLog → RequestLog
unfolding counts_of count_in
record_entry e log = record {
  total_requests = log.total_requests + 1;
  entries =
      (if leb max_entries (length log.entries) then drop 1 log.entries else log.entries) ++ e ∷ [];
  requests_per_second = count_in e.ts (counts_of e) (keep (is_kept e.ts) log.requests_per_second);
}

unfoldable pub record_all : List LogEntry → RequestLog → RequestLog
record_all [] log = log
record_all (e ∷ es) log = record_all es (record_entry e log)

-- The counts of the buckets whose second passes the test.
unfoldable pub sum_buckets : (ℕ → Bool) → List Bucket → SecondCounts
unfolding add_counts
sum_buckets p [] = no_counts
sum_buckets p ((second, counts) ∷ rest) =
    let others = sum_buckets p rest in if p second then add_counts counts others else others

-- The last bucket of the second, as the loop writes the cells of the history one after the other.
unfoldable pub cell : ℕ → List Bucket → SecondCounts → SecondCounts
cell at [] found = found
cell at ((second, counts) ∷ rest) found = cell at rest (if second == at then counts else found)

abbrev pub in_window : ℕ → ℕ → Bool
in_window now second = ltb now (second + rate_window_seconds) && leb second now

abbrev pub in_recent : ℕ → ℕ → Bool
in_recent now second = leb now (second + rate_now_seconds) && ltb second now

abbrev pub in_history : ℕ → ℕ → Bool
in_history now second = leb now (second + rate_window_seconds) && ltb second now

-- The greatest count of a class among the buckets of the history.
unfoldable pub peak : (SecondCounts → ℕ) → ℕ → List Bucket → ℕ
peak class now [] = 0
peak class now ((second, counts) ∷ rest) =
    let others = peak class now rest in
    if in_history now second then max (class counts) others else others

-- `RequestRate`: the two rates as sums, over 5 and over 60 seconds.
pub record RequestRate : Type 0 where
  pub now_sum : ℕ
  pub window_sum : ℕ
  pub peak_60s : ℕ

-- `RequestRates`; `history` gives the counts at an index below 60, which stands for the second `now - 60 + index`.
pub record RequestRates : Type 0 where
  pub all : RequestRate
  pub playback : RequestRate
  pub search : RequestRate
  pub catalog : RequestRate
  pub cached : RequestRate
  pub throttled_60s : ℕ
  pub history : ℕ → SecondCounts

unfoldable pub rate_of : (SecondCounts → ℕ) → ℕ → List Bucket → RequestRate
unfolding sum_buckets peak
rate_of class now buckets = record {
  now_sum = class (sum_buckets (in_recent now) buckets);
  window_sum = class (sum_buckets (in_window now) buckets);
  peak_60s = peak class now buckets;
}

-- `RequestLog::request_rates_at`, for times of at least 60.
unfoldable pub request_rates_at : ℕ → RequestLog → RequestRates
unfolding rate_of upstream cell
request_rates_at now log =
    let buckets = log.requests_per_second in
    record {
      all = rate_of upstream now buckets;
      playback = rate_of (λ c. c.playback) now buckets;
      search = rate_of (λ c. c.search) now buckets;
      catalog = rate_of (λ c. c.catalog) now buckets;
      cached = rate_of (λ c. c.cached) now buckets;
      throttled_60s = (sum_buckets (in_window now) buckets).throttled;
      history = λ index. cell (now - rate_window_seconds + index) buckets no_counts;
    }
